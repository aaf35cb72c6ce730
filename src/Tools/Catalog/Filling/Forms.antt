-- ===== src/Tools/Catalog/Filling/Forms.antt =====
-- About `fill` of tools/catalog.py: which entries change, and that no plural form is lost.
use Prim.Native.Char.{code}
use Prim.Native.String.{String}
use Prim.Native.String.{◌++◌ as append}
use text.Mathlib.TextLemmas.{cons-append}
use azm_crm.Prelude.{
  ℕ, suc, ◌+◌, Option, none, some, Bool, true, false, List, [], ◌∷◌, length, keep, ◌==◌, ◌≡◌, refl,
  ap, ◌∙◌, Bool-cases, &&-eq-true, inl, inr, ==_refl,
}
use azm_crm.Core.Text.{starts_with}
use azm_crm.Core.Decimal.{decimal}
use azm_crm.Tools.Catalog.{Block, is_translation}
use azm_crm.Tools.Catalog.Parts.{is_plural_form}
use azm_crm.Tools.Catalog.Filling.{
  form_line, form_lines, text_line, escape, quoted, plural_forms, before_translation, with_line,
}

pub starts_with-append : (p s : String) → starts_with p (append p s) ≡ true
unfolding starts_with
starts_with-append String.[] s = refl
starts_with-append (String.◌∷◌ c p) s = rw (cons-append, ==_refl (code c)) (starts_with-append p s)

pub starts_with-shorter :
    (p q l : String) → starts_with (append p q) l ≡ true → starts_with p l ≡ true
unfolding starts_with
starts_with-shorter String.[] q l h = refl
starts_with-shorter (String.◌∷◌ c p) q String.[] h = rw cons-append at h
starts_with-shorter (String.◌∷◌ c p) q (String.◌∷◌ d l) h =
    let (first, rest) =
      &&-eq-true (code c == code d) (starts_with (append p q) l) (rw cons-append at h) in
    rw first (starts_with-shorter p q l rest)

plural_form-is_translation : (l : String) → is_translation l ≡ false → is_plural_form l ≡ false
unfolding is_translation is_plural_form
plural_form-is_translation l e = elim (Bool-cases (starts_with "msgstr[" l)) [
  | inl h ↦ absurd (cc (starts_with-shorter "msgstr" "[" l h))
  | inr h ↦ h
]

is_plural_form-form_line : (n : ℕ) (form : String) → is_plural_form (form_line n form) ≡ true
unfolding is_plural_form form_line
is_plural_form-form_line n form =
    starts_with-append "msgstr[" (append (decimal n) (append "] " (quoted (escape form))))

pub is_plural_form-text_line : (value : String) → is_plural_form (text_line value) ≡ false
unfolding is_plural_form text_line starts_with
is_plural_form-text_line value =
    rw (cons-append, cons-append, cons-append, cons-append, cons-append, cons-append, cons-append)
      refl

pub plural_forms-form_lines :
    (n : ℕ) (vs : List String) → length (plural_forms (form_lines n vs)) ≡ length vs
unfolding form_lines
plural_forms-form_lines n [] = refl
plural_forms-form_lines n (v ∷ vs) =
    rw is_plural_form-form_line (ap suc (plural_forms-form_lines (n + 1) vs))

-- Before the translation of an entry there is no plural form, with or without its flags.
keep-cons_false :
    (p q : String → Bool) (l : String) (ls : Block)
    → q l ≡ false
    → keep q (keep p (l ∷ ls)) ≡ keep q (keep p ls)
keep-cons_false p q l ls e = elim (Bool-cases (p l)) [ inl h ↦ rw (h, e) refl | inr h ↦ rw h refl ]

no_forms_with :
    (l : String) (o : Option Block) (head : Block) (p : String → Bool)
    → is_plural_form l ≡ false
    → ((before : Block) → o ≡ some before → plural_forms (keep p before) ≡ [])
    → with_line l o ≡ some head
    → plural_forms (keep p head) ≡ []
no_forms_with l none head p f h e = absurd (cc)
no_forms_with l (some before) head p f h e =
    let k : l ∷ before ≡ head = cc in
    rw (← k) (keep-cons_false p is_plural_form l before f ∙ h before refl)

pub no_forms_before :
    (b head : Block) (p : String → Bool)
    → before_translation b ≡ some head
    → plural_forms (keep p head) ≡ []
unfolding before_translation
no_forms_before [] head p e = absurd (cc)
no_forms_before (l ∷ ls) head p e = elim (Bool-cases (is_translation l)) [
  | inl t ↦ let k : [] ≡ head = cc (rw t at e) in rw (← k) refl
  | inr t ↦
      no_forms_with l (before_translation ls) head p (plural_form-is_translation l t)
        (λ before h. no_forms_before ls before p h) (rw t at e)
]
