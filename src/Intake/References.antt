-- ===== src/Intake/References.antt =====
-- The two patterns of apps/messaging/services/inbound.py: a reference in a plus address, and one
-- that stands by itself in a text.
pub mod Address
use Prim.Native.Char.{Char, code}
use Prim.Native.String.{String}
use Prim.Native.String.{◌++◌ as append}
use azm_crm.Prelude.{ℕ, zero, suc, Option, none, some, Bool, true, false, not, ◌==◌, if◌then◌else◌}
use azm_crm.Intake.Office.{Letters}

-- A pattern that is one character after another, with what it matched and what is left.
abbrev pub Matched : Type 0
Matched = Option (String × String)

abbrev pub with_char : Char → Matched → Matched
with_char c none = none
with_char c (some (s, rest)) = some (String.◌∷◌ c s, rest)

-- `\d{n}`, and then the rest of the pattern.
unfoldable pub match_digits : Letters → ℕ → (String → Matched) → String → Matched
match_digits l zero k s = k s
match_digits l (suc n) k String.[] = none
match_digits l (suc n) k (String.◌∷◌ c s) =
    let rest = with_char c (match_digits l n k s) in if l.is_decimal c then rest else none

-- One given character, and then the rest of the pattern.
unfoldable pub match_char : Char → (String → Matched) → String → Matched
match_char d k String.[] = none
match_char d k (String.◌∷◌ c s) = if code c == code d then with_char c (k s) else none

abbrev pub matched_all : String → Matched
matched_all s = some (String.[], s)

-- `AZM-\d{4}-\d{6}`
unfoldable pub match_reference : Letters → String → Matched
unfolding match_digits match_char
match_reference l s =
    match_char "A"
      (match_char "Z" (
        match_char "M"
          (match_char "-" (match_digits l 4 (match_char "-" (match_digits l 6 matched_all))))))
      s

abbrev pub starts_with_at : String → Bool
starts_with_at String.[] = false
starts_with_at (String.◌∷◌ c s) = code c == 64

abbrev pub if_then_at : Matched → Option String
if_then_at none = none
if_then_at (some (reference, rest)) = if starts_with_at rest then some reference else none

-- `\+(AZM-\d{4}-\d{6})@` at the beginning of what follows a plus.
abbrev pub or_search : Option String → Option String → Option String
or_search (some r) later = some r
or_search none later = later

-- `_reply_to_address` of apps/messaging/tasks.py
unfoldable pub reply_to_address : String → String → String
reply_to_address reference domain =
    append "support" (String.◌∷◌ "+" (append reference (String.◌∷◌ "@" domain)))

-- `PLUS_ADDRESS_RE.search`
unfoldable pub search_plus_address : Letters → String → Option String
unfolding match_reference
search_plus_address l String.[] = none
search_plus_address l (String.◌∷◌ c s) =
    let later = search_plus_address l s in
    if code c == 43 then or_search (if_then_at (match_reference l s)) later else later

abbrev pub at_word_end : Letters → String → Bool
at_word_end l String.[] = true
at_word_end l (String.◌∷◌ c s) = not (l.is_word c)

abbrev pub if_word_end : Letters → Matched → Option String
if_word_end l none = none
if_word_end l (some (reference, rest)) = if at_word_end l rest then some reference else none

-- `REFERENCE_RE.search`: whether what stands before is a word character goes along.
unfoldable pub search_from : Letters → Bool → String → Option String
unfolding match_reference
search_from l after_word String.[] = none
search_from l after_word (String.◌∷◌ c s) =
    let later = search_from l (l.is_word c) s in
    if after_word
    then later
    else or_search (if_word_end l (match_reference l (String.◌∷◌ c s))) later

unfoldable pub search_reference : Letters → String → Option String
unfolding search_from
search_reference l s = search_from l false s
