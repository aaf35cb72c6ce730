-- ===== src/Portal/Tokens/Lookup.antt =====
-- What finding a link in the table says of it, and what is found after links were stamped as used.
use azm_crm.Prelude.{
  ℕ, ◌<◌, String, Option, none, some, Bool, true, false, ◌&&◌, not, List, [], ◌∷◌, if◌then◌else◌,
  ◌==◌, is_some, update_where, subst, ◌≡◌, ◌≢◌, refl, sym, ◌∙◌, ap, arith, All, Bool-cases, inl,
  inr, ==_refl,
}
use azm_crm.Core.Text.{is_empty}
use text.Mathlib.Text.{◌==◌ as str_eq}
use text.Mathlib.TextEquality.{eq_iff}
use azm_crm.Portal.Model.{Purpose, confirmation, reset, purpose_eq, Token, Site, is_usable}
use azm_crm.Portal.Tokens.{fingerprint, matches, find_token, usable, peek, stamp_used}

purpose_eq_sound : (p q : Purpose) → purpose_eq p q ≡ true → p ≡ q
purpose_eq_sound confirmation confirmation h = refl
purpose_eq_sound reset reset h = refl
purpose_eq_sound _ _ h = cc

pub purpose_eq_refl : (p : Purpose) → purpose_eq p p ≡ true
purpose_eq_refl confirmation = refl
purpose_eq_refl reset = refl

-- Two links never carry the same fingerprint.
abbrev pub AreDistinct : List Token → Type 0
AreDistinct [] = Unit
AreDistinct (t ∷ ts) = All (λ (r : Token). t.value_hash ≢ r.value_hash) ts × AreDistinct ts

-- What a lookup that finds a link says of it.
pub matches_lem :
    (hash : String) (p : Purpose) (r : Token)
    → matches hash p r ≡ true
    → (r.value_hash ≡ hash) × (r.purpose ≡ p) × (r.used_at ≡ none)
matches_lem hash p r m = elim (Bool-cases (str_eq r.value_hash hash)) [
  | inr e ↦ cc (rw e at m)
  | inl e ↦ elim (Bool-cases (purpose_eq r.purpose p)) [
    | inr k ↦ cc (rw (e, k) at m)
    | inl k ↦
        ((eq_iff r.value_hash hash).0 e, purpose_eq_sound r.purpose p k, unused r (rw (e, k) at m))
  ]
]
  where
    unused : (x : Token) → not (is_some x.used_at) ≡ true → x.used_at ≡ none
    unused x h = ground arith

pub some_inj : {x y : Token} → some x ≡ some y → x ≡ y
some_inj h = ground arith

pub find_token_lem :
    (hash : String) (p : Purpose) (rows : List Token) (t : Token)
    → find_token hash p rows ≡ some t
    → (t.value_hash ≡ hash) × (t.purpose ≡ p) × (t.used_at ≡ none)
find_token_lem hash p [] t e = cc
find_token_lem hash p (r ∷ rows) t e = elim (Bool-cases (matches hash p r)) [
  | inl m ↦
      subst (λ (x : Token). (x.value_hash ≡ hash) × (x.purpose ≡ p) × (x.used_at ≡ none))
        (some_inj (rw m at e)) (matches_lem hash p r m)
  | inr m ↦ find_token_lem hash p rows t (rw m at e)
]

All-find_token {κ} :
    (P : Token → Type κ) (hash : String) (p : Purpose) (rows : List Token) (t : Token)
    → All P rows
    → find_token hash p rows ≡ some t
    → P t
All-find_token P hash p [] t h e = cc
All-find_token P hash p (r ∷ rows) t h e = elim (Bool-cases (matches hash p r)) [
  | inl m ↦ subst P (some_inj (rw m at e)) h.0
  | inr m ↦ All-find_token P hash p rows t h.1 (rw m at e)
]

pub str_neq : (s t : String) → s ≢ t → str_eq s t ≡ false
str_neq s t ne = elim (Bool-cases (str_eq s t)) [
  | inl e ↦ absurd (ne ((eq_iff s t).0 e))
  | inr e ↦ e
]

-- A row that carries another fingerprint is not found, before and after it is stamped.
other_hash :
    (hash : String) (q : Purpose) (b : Bool) (now : ℕ) (r : Token)
    → r.value_hash ≢ hash
    → matches hash q (if b then stamp_used now r else r) ≡ false
other_hash hash q true now r ne = rw (str_neq r.value_hash hash ne)
other_hash hash q false now r ne = rw (str_neq r.value_hash hash ne)

none_left :
    (hash : String) (q : Purpose) (g : Token → Bool) (now : ℕ) (rows : List Token)
    → All (λ (r : Token). hash ≢ r.value_hash) rows
    → find_token hash q (update_where g (stamp_used now) rows) ≡ none
none_left hash q g now [] h = refl
none_left hash q g now (r ∷ rows) h =
    rw (other_hash hash q (g r) now r (λ e. h.0 (sym e))) (none_left hash q g now rows h.1)

pub spent_row :
    (hash : String) (q : Purpose) (now : ℕ) (r : Token) → matches hash q (stamp_used now r) ≡ false
spent_row hash q now r = both_false (str_eq r.value_hash hash) (purpose_eq r.purpose q)
  where
    both_false : (a b : Bool) → (a && (b && false)) ≡ false
    both_false true true = refl
    both_false true false = refl
    both_false false b = refl

pub gone :
    (hash : String) (p q : Purpose) (now : ℕ) (rows : List Token) (t : Token)
    → AreDistinct rows
    → find_token hash p rows ≡ some t
    → find_token hash q (update_where (λ r. r.pk == t.pk) (stamp_used now) rows) ≡ none
gone hash p q now [] t d e = refl
gone hash p q now (r ∷ rows) t d e = elim (Bool-cases (matches hash p r)) [
  | inl m ↦
      subst
        (λ (x : Token).
          find_token hash q (update_where (λ r'. r'.pk == x.pk) (stamp_used now) (r ∷ rows)) ≡ none)
        (some_inj (rw m at e))
        (rw (==_refl r.pk, spent_row hash q now r)
          (none_left hash q (λ r'. r'.pk == r.pk) now rows
            (subst (λ h. All (λ (x : Token). h ≢ x.value_hash) rows) (matches_lem hash p r m).0
              d.0)))
  | inr m ↦
      let later = rw m at e in
      let found = find_token_lem hash p rows t later in
      rw
        (other_hash hash q (r.pk == t.pk) now r (λ k.
          All-find_token (λ (x : Token). r.value_hash ≢ x.value_hash) hash p rows t d.0 later
            (k ∙ sym found.0)))
        (gone hash p q now rows t d.1 later)
]

-- What a `peek` that finds a link says of it.
pub peek_lem :
    (value : String) (p : Purpose) (s : Site) (t : Token)
    → peek value p s ≡ some t
    → (is_empty value ≡ false)
      × (find_token (fingerprint s.library value) p s.tokens ≡ some t)
      × (s.now < t.expires_at)
unfolding peek
peek_lem value p s t e = elim (Bool-cases (is_empty value)) [
  | inl n ↦ cc (rw n at e)
  | inr n ↦
      let u = usable_lem (find_token (fingerprint s.library value) p s.tokens) refl (rw n at e) in
      (n, u.0, u.1)
]
  where
    usable_some :
        (x : Token) (found : Option Token)
        → found ≡ some x
        → (if is_usable s.now x then some x else none) ≡ some t
        → (found ≡ some t) × (s.now < t.expires_at)
    usable_some x found f h = elim (Bool-cases (is_usable s.now x)) [
      | inl u ↦
          let same = some_inj (rw u at h) in
          (f ∙ ap some same, subst (λ (y : Token). s.now < y.expires_at) same (alive x u))
      | inr u ↦ cc (rw u at h)
    ]
      where
        alive : (y : Token) → is_usable s.now y ≡ true → s.now < y.expires_at
        alive y k = ground arith

    usable_lem :
        (found : Option Token)
        → find_token (fingerprint s.library value) p s.tokens ≡ found
        → usable s.now found ≡ some t
        → (find_token (fingerprint s.library value) p s.tokens ≡ some t) × (s.now < t.expires_at)
    usable_lem none f h = cc
    usable_lem (some x) f h = usable_some x _ f h

-- A `peek` reads the library, the rows and the moment, and no more.
pub peek_alike :
    (value : String) (p : Purpose) (s r : Site)
    → s.tokens ≡ r.tokens
    → s.library ≡ r.library
    → s.now ≡ r.now
    → peek value p s ≡ peek value p r
unfolding peek
peek_alike value p s r i j k = rw (i, j, k)

pub peek_gone :
    (value : String) (q : Purpose) (s : Site)
    → find_token (fingerprint s.library value) q s.tokens ≡ none
    → peek value q s ≡ none
unfolding peek
peek_gone value q s e = elim (Bool-cases (is_empty value)) [ inl n ↦ rw n | inr n ↦ rw (n, e) ]
