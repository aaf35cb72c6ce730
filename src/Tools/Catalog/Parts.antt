-- ===== src/Tools/Catalog/Parts.antt =====
-- tools/catalog.py: the parts of an entry, `_string_parts` and the two patterns of marked lines.
use Prim.Native.Char.{Char}
use Prim.Native.String.{String, count}
use Prim.Native.String.{◌++◌ as append}
use azm_crm.Prelude.{Bool, true, false, not, ◌&&◌, ◌||◌, List, [], ◌∷◌, ◌++◌, any, if◌then◌else◌}
use azm_crm.Core.Text.{strip, starts_with, contains, drop_chars, strip_quotes}
use azm_crm.Tools.Catalog.{Block}

-- `"Project-Id-Version" in block`
unfoldable pub is_header : Block → Bool
unfolding contains
is_header b = any (contains "Project-Id-Version") b

abbrev pub unquoted : String → String
unquoted l = strip_quotes (strip l)

-- The loop of `_string_parts`: the parts so far, and whether they are being collected.
unfoldable pub collect : String → List String → Bool → List String → List String
unfolding starts_with
collect keyword parts on [] = parts
collect keyword parts on (l ∷ ls) =
    let opened = collect keyword (unquoted (drop_chars (count keyword) l) ∷ []) true ls in
    let more = collect keyword (parts ++ unquoted l ∷ []) true ls in
    let later = collect keyword parts false ls in
    if starts_with keyword l
    then opened
    else if on
    then (if starts_with "\"" l then more else parts)
    else later

abbrev pub joined : List String → String
joined [] = ""
joined (s ∷ ss) = append s (joined ss)

-- `_string_parts(lines, start_keyword)`
unfoldable pub string_parts : Block → String → String
unfolding collect
string_parts lines keyword = joined (collect keyword [] false lines)

unfoldable pub is_plural_form : String → Bool
unfolding starts_with
is_plural_form l = starts_with "msgstr[" l

-- `PREVIOUS_MSGID_LINE`
unfoldable pub is_previous : String → Bool
unfolding starts_with
is_previous l = starts_with "#|" l

-- What `\w` of `re` matches is a parameter.
module _ (is_word : Char → Bool) where
  abbrev pub ends_word : String → Bool
  ends_word String.[] = true
  ends_word (String.◌∷◌ c s) = not (is_word c)

  -- `\bfuzzy\b`, somewhere in what follows a character
  unfoldable pub has_fuzzy : Bool → String → Bool
  unfolding starts_with drop_chars
  has_fuzzy after_word String.[] = false
  has_fuzzy after_word (String.◌∷◌ c s) =
      not after_word && (starts_with "fuzzy" (String.◌∷◌ c s) && ends_word (drop_chars 4 s))
      || has_fuzzy (is_word c) s

  -- `FUZZY_LINE`
  unfoldable pub is_fuzzy : String → Bool
  unfolding starts_with has_fuzzy drop_chars
  is_fuzzy l = starts_with "#," l && has_fuzzy (is_word ",") (drop_chars 2 l)
