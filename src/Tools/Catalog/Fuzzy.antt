-- ===== src/Tools/Catalog/Fuzzy.antt =====
-- tools/catalog.py, `clear_fuzzy` and `status`.
pub mod Cleared
use Prim.Native.Char.{Char}
use Prim.Native.String.{String}
use text.Mathlib.Text.{◌==◌ as str_eq}
use azm_crm.Prelude.{
  Option, none, some, Bool, true, false, not, ◌&&◌, ◌||◌, List, [], ◌∷◌, ◌++◌, map, any, keep,
  if◌then◌else◌,
}
use azm_crm.Core.Text.{strip, is_empty, starts_with, drop_chars}
use azm_crm.Core.Lines.{split_lines}
use azm_crm.Tools.Catalog.{Block, blocks, rewrite}
use azm_crm.Tools.Catalog.Parts.{is_header, string_parts, is_plural_form, is_previous, is_fuzzy}

-- `.sub("", text)` of a pattern that is a whole line with its newline: after the last line there
-- is none, and an empty line is left.
unfoldable pub remove_lines : (String → Bool) → Block → Block
remove_lines p [] = []
remove_lines p (l ∷ []) = (if p l then "" else l) ∷ []
remove_lines p (l ∷ m ∷ ls) = let rest = remove_lines p (m ∷ ls) in if p l then rest else l ∷ rest

module _ (is_word : Char → Bool) where
  -- `PREVIOUS_MSGID_LINE.sub("", FUZZY_LINE.sub("", block))`
  unfoldable pub unmarked : Block → Block
  unfolding remove_lines is_previous is_fuzzy
  unmarked b = remove_lines is_previous (remove_lines (is_fuzzy is_word) b)

  unfoldable pub clear_block : Block → Block
  unfolding unmarked is_header
  clear_block b = if is_header b then b else unmarked b

  -- `_clear_fuzzy_file`
  unfoldable pub clear_fuzzy_file : String → String
  unfolding clear_block rewrite
  clear_fuzzy_file file = rewrite (map clear_block) file

  -- `clear_fuzzy`
  unfoldable pub clear_fuzzy : List String → List String
  unfolding clear_fuzzy_file
  clear_fuzzy files = map clear_fuzzy_file files

  -- `line.split("]", 1)[1]` of a line that has a bracket.
  unfoldable pub after_bracket : String → String
  after_bracket String.[] = String.[]
  after_bracket (String.◌∷◌ c s) =
      let rest = after_bracket s in if starts_with "]" (String.◌∷◌ c s) then s else rest

  abbrev pub is_untranslated : Block → Block → Bool
  is_untranslated lines [] = is_empty (string_parts lines "msgstr ")
  is_untranslated lines (p ∷ ps) = any (λ l. str_eq (strip (after_bracket l)) "\"\"") (p ∷ ps)

  abbrev pub is_named : Block → Bool
  is_named b = not (is_header b) && not (is_empty (string_parts b "msgid "))

  abbrev pub msgid : Block → String
  msgid b = string_parts b "msgid "

  -- What `status` lists of the entries of one language: the missing, and the fuzzy.
  unfoldable pub status : List Block → List String × List String
  unfolding is_header string_parts is_plural_form is_fuzzy after_bracket
  status bs = (
    map msgid (keep (λ b. is_named b && is_untranslated b (keep is_plural_form b)) bs),
    map msgid (keep (λ b. is_named b && any (is_fuzzy is_word) b) bs),
  )
