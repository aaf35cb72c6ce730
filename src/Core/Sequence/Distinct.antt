-- ===== src/Core/Sequence/Distinct.antt =====
-- About apps/core/models_sequence.py: no reference is given twice.
use Prim.Native.String.{String}
use text.Mathlib.TextEquality.{eq_iff}
use text.Mathlib.Text.{◌==◌ as str_eq}
use azm_crm.Prelude.{
  ℕ, ◌+◌, ◌≤◌, Option, none, some, true, false, ◌&&◌, ◌==◌, List, [], ◌∷◌, ◌++◌, first,
  update_where, ◌≡◌, ◌≢◌, refl, ◌∙◌, arith, All, Bool-cases, inl, inr, Option-cases,
}
use azm_crm.Core.Decimal.{decimal, six_digits}
use azm_crm.Core.Decimal.Reading.{
  decimal_inj, six_digits_inj, NoDash, NoDash-decimal, split_at_dash,
}
use azm_crm.Core.Sequence.{Sequence, is_for, set_value, next_value, format, allocate_reference}

-- Prefix, year and value can be told from the reference.
format_inj :
    (p q : String) (y z m n : ℕ)
    → NoDash p
    → NoDash q
    → format p y m ≡ format q z n
    → (p ≡ q) × (y ≡ z) × (m ≡ n)
unfolding format
format_inj p q y z m n h k e =
    let outer = split_at_dash p _ q _ h k e in
    let inner =
      split_at_dash (decimal y) (six_digits m) (decimal z) (six_digits n) (NoDash-decimal y)
        (NoDash-decimal z) outer.1 in
    (outer.0, decimal_inj y z inner.0, six_digits_inj m n inner.1)

-- The last value that was given for a prefix and a year.
abbrev value_in : Option Sequence → ℕ
value_in none = 0
value_in (some s) = s.last_value

abbrev last : String → ℕ → List Sequence → ℕ
last prefix year rows = value_in (first (is_for prefix year) rows)

is_for_iff :
    (p : String) (y : ℕ) (s : Sequence) → is_for p y s ≡ true → (s.prefix ≡ p) × (s.year ≡ y)
is_for_iff p y s h = ground (arith, eq_iff s.prefix p)

-- A new row starts at zero, which is what a missing one counts as.
last-append :
    (q : String) (z : ℕ) (s : Sequence) (rows : List Sequence)
    → s.last_value ≡ 0
    → last q z (rows ++ s ∷ []) ≡ last q z rows
last-append q z s [] e = elim (Bool-cases (is_for q z s)) [ inl h ↦ rw h e | inr h ↦ rw h ]
last-append q z s (r ∷ rows) e = elim (Bool-cases (is_for q z r)) [
  | inl h ↦ rw h
  | inr h ↦ rw h (last-append q z s rows e)
]

-- A write under one key leaves the others alone.
last-other :
    (p q : String) (y z v : ℕ) (rows : List Sequence)
    → ((s : Sequence) → is_for q z s ≡ true → is_for p y s ≡ false)
    → last q z (update_where (is_for p y) (set_value v) rows) ≡ last q z rows
last-other p q y z v [] apart = refl
last-other p q y z v (r ∷ rows) apart = elim (Bool-cases (is_for q z r)) [
  | inl h ↦ rw (apart r h, h)
  | inr h ↦ elim (Bool-cases (is_for p y r)) [
    | inl k ↦ rw (k, h) (last-other p q y z v rows apart)
    | inr k ↦ rw (k, h) (last-other p q y z v rows apart)
  ]
]

-- Under its own key it is read back.
last-same :
    (p : String) (y v : ℕ) (s : Sequence) (rows : List Sequence)
    → first (is_for p y) rows ≡ some s
    → last p y (update_where (is_for p y) (set_value v) rows) ≡ v
last-same p y v s [] e = cc
last-same p y v s (r ∷ rows) e = elim (Bool-cases (is_for p y r)) [
  | inl h ↦ rw (h, h)
  | inr h ↦ rw (h, h) (last-same p y v s rows (rw h at e))
]

first-append_new :
    (p : String) (y : ℕ) (s : Sequence) (rows : List Sequence)
    → is_for p y s ≡ true
    → first (is_for p y) rows ≡ none
    → first (is_for p y) (rows ++ s ∷ []) ≡ some s
first-append_new p y s [] e h = rw e
first-append_new p y s (r ∷ rows) e h = elim (Bool-cases (is_for p y r)) [
  | inl k ↦ absurd (cc (rw k at h))
  | inr k ↦ rw k (first-append_new p y s rows e (rw k at h))
]

is_for_own :
    (p : String) (y n : ℕ) → is_for p y (record { prefix = p; year = y; last_value = n }) ≡ true
is_for_own p y n = ground (arith, eq_iff p p)

next_value-same :
    (p : String) (y : ℕ) (rows : List Sequence)
    → ((next_value p y rows).0 ≡ last p y rows + 1)
      × (last p y (next_value p y rows).1 ≡ last p y rows + 1)
unfolding next_value
next_value-same p y rows = elim (Option-cases (first (is_for p y) rows)) [
  | inl e ↦ rw e (refl, last-same p y 1 _ _ (first-append_new p y _ rows (is_for_own p y 0) e))
  | inr (s, e) ↦ rw e (refl, last-same p y (s.last_value + 1) s rows e)
]

next_value-other :
    (p q : String) (y z : ℕ) (rows : List Sequence)
    → ((s : Sequence) → is_for q z s ≡ true → is_for p y s ≡ false)
    → last q z (next_value p y rows).1 ≡ last q z rows
unfolding next_value
next_value-other p q y z rows apart = elim (Option-cases (first (is_for p y) rows)) [
  | inl e ↦ rw e (last-other p q y z 1 _ apart ∙ last-append q z _ rows refl)
  | inr (s, e) ↦ rw e (last-other p q y z (s.last_value + 1) rows apart)
]

-- No counter goes back.
next_value-le :
    (p q : String) (y z : ℕ) (rows : List Sequence)
    → last q z rows ≤ last q z (next_value p y rows).1
next_value-le p q y z rows = elim (Bool-cases (str_eq p q && y == z)) [
  | inl e ↦
      let same : (p ≡ q) × (y ≡ z) = ground (arith, eq_iff p q) in
      rw (← same.0, ← same.1, (next_value-same p y rows).1) (omega arith)
  | inr e ↦ rw (next_value-other p q y z rows (apart e)) (omega arith)
]
  where
    apart :
        (str_eq p q && y == z) ≡ false → (s : Sequence) → is_for q z s ≡ true → is_for p y s ≡ false
    apart e s h = ground (arith, eq_iff p q, eq_iff s.prefix q, eq_iff s.prefix p)

-- What a history of allocations gives out: for each, the prefix and the year of its moment.
unfoldable pub allocate_all : List (String × ℕ) → List Sequence → List String
allocate_all [] rows = []
allocate_all ((prefix, year) ∷ asked) rows =
    let (reference, rows') = allocate_reference prefix year rows in
    reference ∷ allocate_all asked rows'

abbrev pub HasNoDash : String × ℕ → Type 0
HasNoDash (prefix, year) = NoDash prefix

abbrev pub IsDistinct : List String → Type 0
IsDistinct [] = Unit
IsDistinct (r ∷ rs) = All (λ (s : String). r ≢ s) rs × IsDistinct rs

-- A value that was given is not given again.
allocate_all-ne :
    (p : String) (y m : ℕ) (asked : List (String × ℕ)) (rows : List Sequence)
    → NoDash p
    → All HasNoDash asked
    → m ≤ last p y rows
    → All (λ (s : String). format p y m ≢ s) (allocate_all asked rows)
unfolding allocate_all allocate_reference
allocate_all-ne p y m [] rows h k le = tt
allocate_all-ne p y m ((q, z) ∷ asked) rows h k le =
    let grown = next_value-le q p z y rows in
    (
      λ e. clash (format_inj p q y z m (next_value q z rows).0 h k.0 e),
      allocate_all-ne p y m asked (next_value q z rows).1 h k.1 (omega arith),
    )
  where
    clash : (p ≡ q) × (y ≡ z) × (m ≡ (next_value q z rows).0) → ⊥
    clash (a, b, c) =
        let given = (next_value-same q z rows).0 in
        let before : m ≤ last q z rows = rw (← a, ← b) le in absurd (omega arith)

-- Whatever counters there are to begin with, and whichever prefixes without a dash and years are
-- asked for in which order, no two allocations of a history give the same reference.
pub allocate_all-IsDistinct :
    (asked : List (String × ℕ)) (rows : List Sequence)
    → All HasNoDash asked
    → IsDistinct (allocate_all asked rows)
unfolding allocate_all allocate_reference
allocate_all-IsDistinct [] rows h = tt
allocate_all-IsDistinct ((p, y) ∷ asked) rows h =
    let given = next_value-same p y rows in
    (
      allocate_all-ne p y (next_value p y rows).0 asked (next_value p y rows).1 h.0 h.1
          (omega arith),
      allocate_all-IsDistinct asked (next_value p y rows).1 h.1,
    )
