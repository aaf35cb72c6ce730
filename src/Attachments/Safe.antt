-- ===== src/Attachments/Safe.antt =====
-- About apps/attachments/services: what is stored of the files that anybody may send.
use Prim.Native.Char.{Char}
use Prim.Native.String.{String, count}
use text.Mathlib.Text.{◌==◌ as str_eq}
use text.Mathlib.TextLemmas.{nil-append, cons-append, length-cons, length-nil}
use azm_crm.Prelude.{
  ℕ, zero, suc, ◌<◌, ◌≤◌, Option, none, Bool, true, false, not, ◌||◌, List, [], ◌∷◌, any, keep, map,
  ◌==◌, ltb, ◌≡◌, refl, ap, arith, Bool-cases, Option-cases, inl, inr, All, is_some,
}
use azm_crm.Core.Text.{is_empty}
use azm_crm.Attachments.{
  Upload, Parent, Attachment, Refusal, is_slash, or_part, append_char, last_part, path_name,
  take_chars, safe_display_name, allowed_extensions, kind_of, validate_upload, created, add_file,
  attach,
}

-- No character of the text is a slash.
abbrev pub NoSlash : String → Type 0
NoSlash String.[] = Unit
NoSlash (String.◌∷◌ c s) = (is_slash c ≡ false) × NoSlash s

NoSlash-append_char :
    (s : String) (c : Char) → NoSlash s → is_slash c ≡ false → NoSlash (append_char s c)
NoSlash-append_char String.[] c h e = rw nil-append (e, tt)
NoSlash-append_char (String.◌∷◌ d s) c h e = rw cons-append (h.0, NoSlash-append_char s c h.1 e)

NoSlash-or_part : (part last : String) → NoSlash part → NoSlash last → NoSlash (or_part part last)
NoSlash-or_part part last h k = elim (Bool-cases (is_empty part || str_eq part ".")) [
  | inl e ↦ rw e k
  | inr e ↦ rw e h
]

NoSlash-last_part :
    (s last part : String) → NoSlash last → NoSlash part → NoSlash (last_part last part s)
unfolding last_part
NoSlash-last_part String.[] last part h k = NoSlash-or_part part last k h
NoSlash-last_part (String.◌∷◌ c s) last part h k = elim (Bool-cases (is_slash c)) [
  | inl e ↦ rw e (NoSlash-last_part s (or_part part last) "" (NoSlash-or_part part last k h) tt)
  | inr e ↦ rw e (NoSlash-last_part s last (append_char part c) h (NoSlash-append_char part c k e))
]

NoSlash-take_chars : (n : ℕ) (s : String) → NoSlash s → NoSlash (take_chars n s)
unfolding take_chars
NoSlash-take_chars zero s h = tt
NoSlash-take_chars (suc n) String.[] h = tt
NoSlash-take_chars (suc n) (String.◌∷◌ c s) h = (h.0, NoSlash-take_chars n s h.1)

count-take_chars : (n : ℕ) (s : String) → count (take_chars n s) ≤ n
unfolding take_chars
count-take_chars zero s = omega (arith, length-nil)
count-take_chars (suc n) String.[] = omega (arith, length-nil)
count-take_chars (suc n) (String.◌∷◌ c s) =
    omega (arith, length-cons c (take_chars n s), count-take_chars n s)

-- A name that can be shown: something, with no folder in it, and not too long.
abbrev pub IsShowable : String → Type 0
IsShowable s = (is_empty s ≡ false) × NoSlash s × (count s ≤ 255)

safe_display_name-IsShowable : (filename : String) → IsShowable (safe_display_name filename)
unfolding safe_display_name path_name
safe_display_name-IsShowable filename =
    let shown = take_chars 255 (last_part "" "" filename) in
    elim (Bool-cases (is_empty shown)) [
      | inl e ↦ rw e (
        refl,
        (refl, (refl, (refl, (refl, (refl, (refl, (refl, (refl, (refl, (refl, tt)))))))))),
        omega arith,
      )
      | inr e ↦ rw e (
        e,
        NoSlash-take_chars 255 _ (NoSlash-last_part filename "" "" tt tt),
        count-take_chars 255 _,
      )
    ]

ne-zero-pos : (n : ℕ) → (n == 0) ≡ false → 0 < n
ne-zero-pos n e = ground arith

ltb-false-le : (m n : ℕ) → ltb m n ≡ false → n ≤ m
ltb-false-le m n e = ground arith

module _ (lower : String → String) (max_bytes : ℕ) where
  abbrev pub accepted : Upload → Bool
  accepted f = not (is_some (validate_upload lower max_bytes f))

  -- What is stored is a file of an allowed kind, neither empty nor too big, under a name that can
  -- be shown.
  abbrev pub IsSafe : Attachment → Type 0
  IsSafe a =
      (0 < a.size_bytes)
      × (a.size_bytes ≤ max_bytes)
      × (any (str_eq (kind_of lower max_bytes a.file)) allowed_extensions ≡ true)
      × IsShowable a.original_filename

  validate_upload-none :
      (f : Upload)
      → validate_upload lower max_bytes f ≡ none
      → (0 < f.size)
        × (f.size ≤ max_bytes)
        × (any (str_eq (kind_of lower max_bytes f)) allowed_extensions ≡ true)
  unfolding validate_upload
  validate_upload-none f e = elim (Bool-cases (f.size == 0)) [
    | inl z ↦ absurd (cc (rw z at e))
    | inr z ↦ elim (Bool-cases (ltb max_bytes f.size)) [
      | inl b ↦ absurd (cc (rw (z, b) at e))
      | inr b ↦ elim (Bool-cases (any (str_eq (kind_of lower max_bytes f)) allowed_extensions)) [
        | inl k ↦ (ne-zero-pos f.size z, ltb-false-le max_bytes f.size b, k)
        | inr k ↦ absurd (cc (rw (z, b, k) at e))
      ]
    ]
  ]

  module _ (parent : Parent) (uploader : Option ℕ) (department branch : ℕ) where
    abbrev pub store : Upload → Attachment
    store f = created lower max_bytes parent uploader department branch f

    -- What is left of a set of files: those that are accepted are stored, in their order, and safe;
    -- each of the others has its name and its refusal among the errors.
    abbrev pub IsSorted : List Upload → List Attachment × List (String × Refusal) → Type 0
    IsSorted fs (stored, errors) =
        (stored ≡ map store (keep accepted fs))
        × All IsSafe stored
        × (map (λ e. e.0) errors
            ≡ map (λ f. safe_display_name f.name) (keep (λ f. not (accepted f)) fs))

    IsSorted-add_file :
        (f : Upload) (fs : List Upload) (r : List Attachment × List (String × Refusal))
        → IsSorted fs r
        → IsSorted (f ∷ fs) (
            add_file lower max_bytes
              (validate_upload lower max_bytes f)
              (store f)
              (safe_display_name f.name)
              r)
    IsSorted-add_file f fs (stored, errors) h =
        elim (Option-cases (validate_upload lower max_bytes f)) [
          | inl e ↦
              let (pos, small, known) = validate_upload-none f e in
              rw e (
                ap (◌∷◌ (store f)) h.0,
                ((pos, small, known, safe_display_name-IsShowable f.name), h.1),
                h.2,
              )
          | inr (r, e) ↦ rw e (h.0, h.1, ap (◌∷◌ (safe_display_name f.name)) h.2)
        ]

    -- Of a set of uploaded files, whatever they are: those that `validate_upload` accepts are
    -- stored, in their order, and each stored one is neither empty nor over the limit, is of an
    -- allowed kind, and is shown under a name that is not empty, has no slash and at most 255
    -- characters; each of the others has its shown name among the errors, in order.
    pub attach-IsSorted :
        (fs : List Upload)
        → IsSorted fs (attach lower max_bytes parent uploader department branch fs)
    unfolding attach
    attach-IsSorted [] = (refl, tt, refl)
    attach-IsSorted (f ∷ fs) = IsSorted-add_file f fs _ (attach-IsSorted fs)
