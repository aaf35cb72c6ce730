-- ===== src/Core/Newest/Capped.antt =====
-- What a page needs of two sorted lists: as many of each as the page has places.
use azm_crm.Prelude.{
  ℕ, zero, suc, ◌≤◌, true, List, [], ◌∷◌, ◌++◌, leb, if◌then◌else◌, ◌≡◌, refl, sym, ap, ◌∙◌, arith,
  Bool-cases, inl, inr,
}
use azm_crm.Core.Newest.{take, insert_newest, newest_first}

module _ {ℓ} {A : Type ℓ} (at : A → ℕ) where
  -- Two lists into one: of two that are equal, that of the first list comes first.
  merge : List A → List A → List A
  merge [] ys = ys
  merge (x ∷ xs) [] = x ∷ xs
  merge (x ∷ xs) (y ∷ ys) =
      let first = x ∷ merge xs (y ∷ ys) in
      let second = y ∷ merge (x ∷ xs) ys in if leb (at y) (at x) then first else second

  merge-nil : (xs : List A) → merge xs [] ≡ xs
  unfolding merge
  merge-nil [] = refl
  merge-nil (x ∷ xs) = refl

  take-merge_left :
      (n m : ℕ) (xs ys : List A) → n ≤ m → take n (merge (take m xs) ys) ≡ take n (merge xs ys)
  unfolding merge
  take-merge_left zero m xs ys h = refl
  take-merge_left (suc n) zero xs ys h = absurd (omega arith)
  take-merge_left (suc n) (suc m) [] ys h = refl
  take-merge_left (suc n) (suc m) (x ∷ xs) [] h = ap (◌∷◌ x) (
      ap (take n) (sym (merge-nil (take m xs)))
      ∙ take-merge_left n m xs [] (omega arith)
      ∙ ap (take n) (merge-nil xs))
  take-merge_left (suc n) (suc m) (x ∷ xs) (y ∷ ys) h = elim (Bool-cases (leb (at y) (at x))) [
    | inl e ↦ rw e (ap (◌∷◌ x) (take-merge_left n m xs (y ∷ ys) (omega arith)))
    | inr e ↦ rw e (ap (◌∷◌ y) (take-merge_left n (suc m) (x ∷ xs) ys (omega arith)))
  ]

  take-merge_right :
      (n m : ℕ) (xs ys : List A) → n ≤ m → take n (merge xs (take m ys)) ≡ take n (merge xs ys)
  unfolding merge
  take-merge_right zero m xs ys h = refl
  take-merge_right (suc n) zero xs ys h = absurd (omega arith)
  take-merge_right (suc n) (suc m) xs [] h = refl
  take-merge_right (suc n) (suc m) [] (y ∷ ys) h =
      ap (◌∷◌ y) (take-merge_right n m [] ys (omega arith))
  take-merge_right (suc n) (suc m) (x ∷ xs) (y ∷ ys) h = elim (Bool-cases (leb (at y) (at x))) [
    | inl e ↦ rw e (ap (◌∷◌ x) (take-merge_right n (suc m) xs (y ∷ ys) (omega arith)))
    | inr e ↦ rw e (ap (◌∷◌ y) (take-merge_right n m (x ∷ xs) ys (omega arith)))
  ]

  insert-merge :
      (a : A) (xs ys : List A) → insert_newest at a (merge xs ys) ≡ merge (insert_newest at a xs) ys
  unfolding merge insert_newest
  insert-merge a [] [] = refl
  insert-merge a [] (y ∷ ys) = elim (Bool-cases (leb (at y) (at a))) [
    | inl e ↦ rw e refl
    | inr e ↦ rw e (ap (◌∷◌ y) (insert-merge a [] ys))
  ]
  insert-merge a (x ∷ xs) [] = elim (Bool-cases (leb (at x) (at a))) [
    | inl e ↦ rw e refl
    | inr e ↦ rw e refl
  ]
  insert-merge a (x ∷ xs) (y ∷ ys) = elim (Bool-cases (leb (at y) (at x))) [
    | inl e ↦ elim (Bool-cases (leb (at x) (at a))) [
      | inl f ↦ let g : leb (at y) (at a) ≡ true = ground arith in rw (e, f) (rw (g, e) refl)
      | inr f ↦ rw (e, f) (rw e (ap (◌∷◌ x) (insert-merge a xs (y ∷ ys))))
    ]
    | inr e ↦ elim (Bool-cases (leb (at y) (at a))) [
      | inl f ↦ let g : leb (at x) (at a) ≡ true = ground arith in rw (e, f) (rw (g, f, e) refl)
      | inr f ↦ elim (Bool-cases (leb (at x) (at a))) [
        | inl g ↦ rw (e, f) (rw (g, f) (ap (◌∷◌ y) (rw g at (insert-merge a (x ∷ xs) ys))))
        | inr g ↦ rw (e, f) (rw (g, e) (ap (◌∷◌ y) (rw g at (insert-merge a (x ∷ xs) ys))))
      ]
    ]
  ]

  newest_first-append :
      (xs ys : List A)
      → newest_first at (xs ++ ys) ≡ merge (newest_first at xs) (newest_first at ys)
  unfolding newest_first merge
  newest_first-append [] ys = refl
  newest_first-append (x ∷ xs) ys =
      ap (insert_newest at x) (newest_first-append xs ys)
      ∙ insert-merge x (newest_first at xs) (newest_first at ys)

  -- Each before no newer one.
  abbrev Leads : ℕ → List A → Type 0
  Leads t [] = Unit
  Leads t (x ∷ xs) = at x ≤ t

  abbrev pub IsNewestFirst : List A → Type 0
  IsNewestFirst [] = Unit
  IsNewestFirst (x ∷ xs) = Leads (at x) xs × IsNewestFirst xs

  Leads-insert_newest :
      (t : ℕ) (a : A) (xs : List A) → at a ≤ t → Leads t xs → Leads t (insert_newest at a xs)
  unfolding insert_newest
  Leads-insert_newest t a [] h k = h
  Leads-insert_newest t a (x ∷ xs) h k = elim (Bool-cases (leb (at x) (at a))) [
    | inl e ↦ rw e h
    | inr e ↦ rw e k
  ]

  insert_newest-IsNewestFirst :
      (a : A) (xs : List A) → IsNewestFirst xs → IsNewestFirst (insert_newest at a xs)
  unfolding insert_newest
  insert_newest-IsNewestFirst a [] h = (tt, tt)
  insert_newest-IsNewestFirst a (x ∷ xs) h = elim (Bool-cases (leb (at x) (at a))) [
    | inl e ↦ let f : at x ≤ at a = ground arith in rw e (f, h)
    | inr e ↦
        let f : at a ≤ at x = ground arith in
        rw e (Leads-insert_newest (at x) a xs f h.0, insert_newest-IsNewestFirst a xs h.1)
  ]

  newest_first-IsNewestFirst : (xs : List A) → IsNewestFirst (newest_first at xs)
  unfolding newest_first
  newest_first-IsNewestFirst [] = tt
  newest_first-IsNewestFirst (x ∷ xs) =
      insert_newest-IsNewestFirst x (newest_first at xs) (newest_first-IsNewestFirst xs)

  Leads-take : (t n : ℕ) (xs : List A) → Leads t xs → Leads t (take n xs)
  Leads-take t zero xs h = tt
  Leads-take t (suc n) [] h = tt
  Leads-take t (suc n) (x ∷ xs) h = h

  take-IsNewestFirst : (n : ℕ) (xs : List A) → IsNewestFirst xs → IsNewestFirst (take n xs)
  take-IsNewestFirst zero xs h = tt
  take-IsNewestFirst (suc n) [] h = tt
  take-IsNewestFirst (suc n) (x ∷ xs) h = (Leads-take (at x) n xs h.0, take-IsNewestFirst n xs h.1)

  insert_newest-Leads : (a : A) (xs : List A) → Leads (at a) xs → insert_newest at a xs ≡ a ∷ xs
  unfolding insert_newest
  insert_newest-Leads a [] h = refl
  insert_newest-Leads a (x ∷ xs) h = let e : leb (at x) (at a) ≡ true = ground arith in rw e refl

  newest_first-again : (xs : List A) → IsNewestFirst xs → newest_first at xs ≡ xs
  unfolding newest_first
  newest_first-again [] h = refl
  newest_first-again (x ∷ xs) h =
      ap (insert_newest at x) (newest_first-again xs h.1) ∙ insert_newest-Leads x xs h.0

  -- Sorting what was sorted and cut off.
  newest_first-sorted :
      (n : ℕ) (xs : List A)
      → newest_first at (take n (newest_first at xs)) ≡ take n (newest_first at xs)
  newest_first-sorted n xs =
      newest_first-again _ (take-IsNewestFirst n _ (newest_first-IsNewestFirst xs))

  -- The first places of two lists that were sorted and cut off apart are those of all.
  pub take-newest_first-capped :
      (n m : ℕ) (xs ys : List A)
      → n ≤ m
      → take n (newest_first at (take m (newest_first at xs) ++ take m (newest_first at ys)))
        ≡ take n (newest_first at (xs ++ ys))
  take-newest_first-capped n m xs ys h =
      ap (take n) (
        newest_first-append (take m (newest_first at xs)) (take m (newest_first at ys))
        ∙ (λ i. merge (newest_first-sorted m xs i) (newest_first-sorted m ys i)))
      ∙ take-merge_left n m (newest_first at xs) (take m (newest_first at ys)) h
      ∙ take-merge_right n m (newest_first at xs) (newest_first at ys) h
      ∙ ap (take n) (sym (newest_first-append xs ys))
