-- ===== src/Tools/Catalog/Filling.antt =====
-- tools/catalog.py, `fill`: reviewed translations are written over the entries that they name. A
-- translation is a text or a list of texts.
pub mod Forms
pub mod Reviewed
use Prim.Native.Char.{Char, code}
use Prim.Native.String.{String}
use Prim.Native.String.{◌++◌ as append}
use text.Mathlib.Text.{◌==◌ as str_eq}
use azm_crm.Prelude.{
  ℕ, ◌+◌, Option, none, some, Bool, true, false, not, ◌&&◌, ◌||◌, List, [], ◌∷◌, ◌++◌, length, keep,
  ◌==◌, if◌then◌else◌,
}
use azm_crm.Core.Text.{starts_with}
use azm_crm.Core.Lines.{split_lines, join_lines}
use azm_crm.Core.Decimal.{decimal}
use azm_crm.Tools.Catalog.{Block, is_translation, blocks, write}
use azm_crm.Tools.Catalog.Parts.{is_header, string_parts, is_plural_form, is_previous}

pub data Value : Type 0 where
  single : String → Value
  forms : List String → Value

-- The `ValueError`s of `_translation_lines`.
pub data Refusal : Type 0 where
  not_plural : Refusal
  wants_list : ℕ → Refusal
  wrong_number : ℕ → ℕ → Refusal

pub data Checked {ℓ} (A : Type ℓ) : Type ℓ where
  done : A → Checked A
  value_error : Refusal → Checked A

abbrev pub Translations : Type 0
Translations = List (String × Value)

abbrev pub find : String → Translations → Option Value
find msgid [] = none
find msgid ((k, v) ∷ rest) = let later = find msgid rest in if str_eq k msgid then some v else later

unfoldable pub replace_char : ℕ → String → String → String
replace_char c new String.[] = String.[]
replace_char c new (String.◌∷◌ d s) =
    let rest = replace_char c new s in if code d == c then append new rest else String.◌∷◌ d rest

-- `_escape`: first the backslashes, then the quotes.
unfoldable pub escape : String → String
unfolding replace_char
escape value = replace_char 34 "\\\"" (replace_char 92 "\\\\" value)

abbrev pub quoted : String → String
quoted s = String.◌∷◌ "\"" (append s "\"")

unfoldable pub form_line : ℕ → String → String
unfolding escape decimal
form_line n form = append "msgstr[" (append (decimal n) (append "] " (quoted (escape form))))

unfoldable pub text_line : String → String
unfolding escape
text_line value = append "msgstr " (quoted (escape value))

unfoldable pub form_lines : ℕ → List String → Block
unfolding form_line
form_lines n [] = []
form_lines n (form ∷ rest) = form_line n form ∷ form_lines (n + 1) rest

abbrev pub plural_forms : Block → Block
plural_forms lines = keep is_plural_form lines

abbrev pub checked_lines : ℕ → Value → Checked Block
checked_lines plurals (single value) =
    if plurals == 0 then done (text_line value ∷ []) else value_error (wants_list plurals)
checked_lines plurals (forms values) =
    if plurals == 0
    then value_error not_plural
    else if length values == plurals
    then done (form_lines 0 values)
    else value_error (wrong_number plurals (length values))

-- `_translation_lines`
unfoldable pub translation_lines : Block → Value → Checked Block
unfolding is_plural_form form_lines text_line
translation_lines lines value = checked_lines (length (plural_forms lines)) value

-- `lines[:msgstr_at]`, if there is such a line.
abbrev pub with_line : String → Option Block → Option Block
with_line l none = none
with_line l (some ls) = some (l ∷ ls)

unfoldable pub before_translation : Block → Option Block
unfolding is_translation
before_translation [] = none
before_translation (l ∷ ls) =
    let rest = with_line l (before_translation ls) in if is_translation l then some [] else rest

unfoldable pub is_flag : String → Bool
unfolding starts_with is_previous
is_flag l = starts_with "#," l || is_previous l

abbrev pub translated : Block → Checked Block → Checked (Block × ℕ)
translated head (done lines) = done (keep (λ l. not (is_flag l)) head ++ lines, 1)
translated head (value_error e) = value_error e

abbrev pub fill_from : Block → Value → Option Block → Checked (Block × ℕ)
fill_from b value none = done (b, 0)
fill_from b value (some head) = translated head (translation_lines b value)

abbrev pub fill_found : Block → Option Value → Checked (Block × ℕ)
fill_found b none = done (b, 0)
fill_found b (some value) = fill_from b value (before_translation b)

-- One round of the loop of `_fill_file`: the entry, and how many were applied.
unfoldable pub fill_block : Translations → Block → Checked (Block × ℕ)
unfolding is_header string_parts is_flag before_translation translation_lines
fill_block translations b =
    if is_header b then done (b, 0) else fill_found b (find (string_parts b "msgid ") translations)

abbrev pub and_then : Checked (Block × ℕ) → Checked (List Block × ℕ) → Checked (List Block × ℕ)
and_then (value_error e) later = value_error e
and_then (done (b, n)) (value_error e) = value_error e
and_then (done (b, n)) (done (bs, m)) = done (b ∷ bs, n + m)

unfoldable pub fill_blocks : Translations → List Block → Checked (List Block × ℕ)
unfolding fill_block
fill_blocks translations [] = done ([], 0)
fill_blocks translations (b ∷ bs) =
    and_then (fill_block translations b) (fill_blocks translations bs)

-- `_fill_file`: the file is written when no entry was refused.
abbrev pub filled_text : Checked (List Block × ℕ) → String → String × Option Refusal
filled_text (done (bs, n)) before = (join_lines (write bs), none)
filled_text (value_error e) before = (before, some e)

unfoldable pub fill_file : Translations → String → String × Option Refusal
unfolding fill_blocks
fill_file translations before =
    filled_text (fill_blocks translations (blocks (split_lines before))) before

-- `fill`: the files of a language, one after another, until one refuses.
abbrev pub fill_on :
    String × Option Refusal
    → List String
    → List String × Option Refusal
    → List String × Option Refusal
fill_on (new, none) rest (files, e) = (new ∷ files, e)
fill_on (new, some e) rest later = (new ∷ rest, some e)

unfoldable pub fill : Translations → List String → List String × Option Refusal
unfolding fill_file
fill translations [] = ([], none)
fill translations (file ∷ files) =
    fill_on (fill_file translations file) files (fill translations files)
