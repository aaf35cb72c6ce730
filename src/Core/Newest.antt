-- ===== src/Core/Newest.antt =====
-- Sorting by a moment, newest first: of two that are equal, the one that came first stays first.
-- It is `order_by("-created_at")`, and `sort(key=..., reverse=True)`, of the services.
pub mod Capped
use azm_crm.Prelude.{ℕ, zero, suc, Bool, true, false, List, [], ◌∷◌, ◌++◌, leb, if◌then◌else◌}

module _ {ℓ} {A : Type ℓ} where
  abbrev pub take : ℕ → List A → List A
  take zero xs = []
  take (suc n) [] = []
  take (suc n) (x ∷ xs) = x ∷ take n xs

  module _ (at : A → ℕ) where
    unfoldable pub insert_newest : A → List A → List A
    insert_newest x [] = x ∷ []
    insert_newest x (y ∷ ys) =
        let later = y ∷ insert_newest x ys in if leb (at y) (at x) then x ∷ y ∷ ys else later

    unfoldable pub newest_first : List A → List A
    unfolding insert_newest
    newest_first [] = []
    newest_first (x ∷ xs) = insert_newest x (newest_first xs)
