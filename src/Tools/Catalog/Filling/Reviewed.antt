-- ===== src/Tools/Catalog/Filling/Reviewed.antt =====
-- About `fill` of tools/catalog.py: what it leaves of a file, and when it refuses.
use Prim.Native.String.{String}
use azm_crm.Prelude.{
  ℕ, ◌+◌, ◌<◌, Option, none, some, not, List, [], ◌∷◌, ◌++◌, length, keep, ◌==◌, if◌then◌else◌, ◌≡◌,
  refl, ap, ◌∙◌, arith, Bool-cases, Option-cases, inl, inr, ◌⊎◌,
}
use azm_crm.Core.Lines.{split_lines, join_lines}
use azm_crm.Tools.Catalog.{Block, blocks, write}
use azm_crm.Tools.Catalog.Rewriting.{keep-append}
use azm_crm.Tools.Catalog.Parts.{is_header, string_parts, is_plural_form}
use azm_crm.Tools.Catalog.Filling.{
  Value, single, forms, Refusal, Checked, done, value_error, Translations, find, form_lines,
  text_line, plural_forms, translation_lines, before_translation, is_flag, translated, fill_found,
  fill_block, and_then, fill_blocks, filled_text, fill_file,
}
use azm_crm.Tools.Catalog.Filling.Forms.{
  plural_forms-form_lines, is_plural_form-text_line, no_forms_before,
}

-- The lines of a translation.
abbrev pub lines_of : Value → Block
lines_of (single value) = text_line value ∷ []
lines_of (forms values) = form_lines 0 values

-- A translation fits an entry with that many plural forms.
abbrev pub Fits : ℕ → Value → Type 0
Fits n (single value) = n ≡ 0
Fits n (forms values) = (0 < n) × (length values ≡ n)

-- The translation that is given for an entry, if there is one and it is not the header's.
abbrev pub given : Translations → Block → Option Value
given ts b = if is_header b then none else find (string_parts b "msgid ") ts

-- The entry is untouched, having no translation line or no translation that is given for it; or it
-- gets the one that is given: that fits, the flags go, the other lines above stay, and there are as
-- many plural forms as before.
abbrev pub Filled : Translations → Block → Block × ℕ → Type 0
Filled ts b (b', n) =
    ((b' ≡ b) × (n ≡ 0) × ((given ts b ≡ none) ⊎ (before_translation b ≡ none)))
    ⊎ ((value : Value) × (head : Block) × (given ts b ≡ some value)
        × (before_translation b ≡ some head)
        × Fits (length (plural_forms b)) value
        × (b' ≡ keep (λ l. not (is_flag l)) head ++ lines_of value)
        × (length (plural_forms b') ≡ length (plural_forms b))
        × (n ≡ 1))

-- A translation is given for the entry that does not fit.
abbrev pub Unfit : Translations → Block → Type 0
Unfit ts b =
    (value : Value) × (head : Block) × (given ts b ≡ some value)
    × (before_translation b ≡ some head)
    × (¬ Fits (length (plural_forms b)) value)

abbrev Judged : Translations → Block → Checked (Block × ℕ) → Type 0
Judged ts b (done r) = Filled ts b r
Judged ts b (value_error e) = Unfit ts b

forms_after :
    (b head : Block) (lines : Block)
    → before_translation b ≡ some head
    → plural_forms (keep (λ l. not (is_flag l)) head ++ lines) ≡ plural_forms lines
forms_after b head lines e =
    keep-append is_plural_form (keep (λ l. not (is_flag l)) head) lines
    ∙ ap (λ (before : Block). before ++ plural_forms lines)
        (no_forms_before b head (λ l. not (is_flag l)) e)

module _ (ts : Translations) (b head : Block) (before : before_translation b ≡ some head) where
  filled :
      (value : Value)
      → given ts b ≡ some value
      → Fits (length (plural_forms b)) value
      → length (plural_forms (lines_of value)) ≡ length (plural_forms b)
      → Filled ts b (keep (λ l. not (is_flag l)) head ++ lines_of value, 1)
  filled value g fits same = inr (
    value,
    head,
    g,
    before,
    fits,
    refl,
    ap length (forms_after b head (lines_of value) before) ∙ same,
    refl,
  )

  fill_from-Judged :
      (value : Value)
      → given ts b ≡ some value
      → Judged ts b (translated head (translation_lines b value))
  unfolding translation_lines
  fill_from-Judged (single value) g = elim (Bool-cases (length (plural_forms b) == 0)) [
    | inl e ↦
        rw e (filled (single value) g (ground arith) (rw is_plural_form-text_line (ground arith)))
    | inr e ↦ rw e (single value, head, g, before, λ h. ground arith)
  ]
  fill_from-Judged (forms values) g = elim (Bool-cases (length (plural_forms b) == 0)) [
    | inl e ↦ rw e (forms values, head, g, before, λ h. ground (arith, h.0))
    | inr e ↦ elim (Bool-cases (length values == length (plural_forms b))) [
      | inl k ↦
          rw (e, k)
            (filled (forms values) g (ground arith)
              (plural_forms-form_lines 0 values ∙ ground arith))
      | inr k ↦ rw (e, k) (forms values, head, g, before, λ h. ground (arith, h.1))
    ]
  ]

fill_found-Judged :
    (ts : Translations) (b : Block) (o : Option Value)
    → given ts b ≡ o
    → Judged ts b (fill_found b o)
fill_found-Judged ts b none g = inl (refl, refl, inl g)
fill_found-Judged ts b (some value) g = elim (Option-cases (before_translation b)) [
  | inl e ↦ rw e (inl (refl, refl, inr e))
  | inr (head, e) ↦ rw e (fill_from-Judged ts b head e value g)
]

fill_block-Judged : (ts : Translations) (b : Block) → Judged ts b (fill_block ts b)
unfolding fill_block
fill_block-Judged ts b = elim (Bool-cases (is_header b)) [
  | inl e ↦ rw e (fill_found-Judged ts b none (rw e refl))
  | inr e ↦ rw e (fill_found-Judged ts b (find (string_parts b "msgid ") ts) (rw e refl))
]

-- Every entry in its place, and the number of those that got a translation.
abbrev pub FilledAll : Translations → List Block → List Block × ℕ → Type 0
FilledAll ts [] ([], n) = n ≡ 0
FilledAll ts [] (b' ∷ bs', n) = ⊥
FilledAll ts (b ∷ bs) ([], n) = ⊥
FilledAll ts (b ∷ bs) (b' ∷ bs', n) =
    (k : ℕ) × (m : ℕ) × Filled ts b (b', k) × FilledAll ts bs (bs', m) × (n ≡ k + m)

abbrev pub AnyUnfit : Translations → List Block → Type 0
AnyUnfit ts [] = ⊥
AnyUnfit ts (b ∷ bs) = Unfit ts b ⊎ AnyUnfit ts bs

abbrev JudgedAll : Translations → List Block → Checked (List Block × ℕ) → Type 0
JudgedAll ts bs (done r) = FilledAll ts bs r
JudgedAll ts bs (value_error e) = AnyUnfit ts bs

and_then-JudgedAll :
    (ts : Translations) (b : Block) (bs : List Block) (r : Checked (Block × ℕ))
    (rs : Checked (List Block × ℕ))
    → Judged ts b r
    → JudgedAll ts bs rs
    → JudgedAll ts (b ∷ bs) (and_then r rs)
and_then-JudgedAll ts b bs (value_error e) rs h k = inl h
and_then-JudgedAll ts b bs (done (b', n)) (value_error e) h k = inr k
and_then-JudgedAll ts b bs (done (b', n)) (done (bs', m)) h k = (n, m, h, k, refl)

fill_blocks-JudgedAll : (ts : Translations) (bs : List Block) → JudgedAll ts bs (fill_blocks ts bs)
unfolding fill_blocks
fill_blocks-JudgedAll ts [] = refl
fill_blocks-JudgedAll ts (b ∷ bs) =
    and_then-JudgedAll ts b bs _ _ (fill_block-Judged ts b) (fill_blocks-JudgedAll ts bs)

-- What `_fill_file` leaves of a file: with a refusal, the file as it was.
abbrev pub FileFilled : Translations → String → String × Option Refusal → Type 0
FileFilled ts file (file', none) =
    (bs' : List Block) × (n : ℕ) × FilledAll ts (blocks (split_lines file)) (bs', n)
    × (file' ≡ join_lines (write bs'))
FileFilled ts file (file', some e) = AnyUnfit ts (blocks (split_lines file)) × (file' ≡ file)

filled_text-FileFilled :
    (ts : Translations) (file : String) (r : Checked (List Block × ℕ))
    → JudgedAll ts (blocks (split_lines file)) r
    → FileFilled ts file (filled_text r file)
filled_text-FileFilled ts file (done (bs', n)) h = (bs', n, h, refl)
filled_text-FileFilled ts file (value_error e) h = (h, refl)

-- `_fill_file` on any file. Either it refuses, and the file is as it was: then an entry with a
-- translation line is given a translation that does not fit its number of plural forms. Or it
-- writes the entries in their order: one that is given no translation, or has no translation
-- line, is untouched; another is given one that fits, loses its flags, keeps the other lines
-- above, and has as many plural forms as before.
pub fill_file-FileFilled :
    (ts : Translations) (file : String) → FileFilled ts file (fill_file ts file)
unfolding fill_file
fill_file-FileFilled ts file =
    filled_text-FileFilled ts file _ (fill_blocks-JudgedAll ts (blocks (split_lines file)))
