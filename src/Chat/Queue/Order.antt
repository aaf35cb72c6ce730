-- ===== src/Chat/Queue/Order.antt =====
-- Laws of the sorted sets that hold one queue.
use azm_crm.Prelude.{
  ℕ, ◌≤◌, some, Bool, true, false, List, [], ◌∷◌, ◌++◌, if◌then◌else◌, ◌==◌, ◌≡◌, ◌≢◌, refl, arith,
  All, All-append, ap, is_some, length,
}
use azm_crm.Chat.Redis.Sorted.{ZSet, place, ordered, zput, zdrop, zfind, members, index_of}

-- Later entries have no smaller score.
abbrev pub Ascending : ZSet → Type 0
Ascending [] = Unit
Ascending (e ∷ z) = All (λ (d : ℕ × ℕ). e.1 ≤ d.1) z × Ascending z

-- No member stands twice.
abbrev pub Distinct : ZSet → Type 0
Distinct [] = Unit
Distinct (e ∷ z) = All (λ (d : ℕ × ℕ). e.0 ≢ d.0) z × Distinct z

-- What a queue is at a moment, when the clock has not gone back.
pub record IsQueue (now : ℕ) (z : ZSet) : Type 0 where
  pub ascending : Ascending z
  pub distinct : Distinct z
  pub arrived : All (λ (d : ℕ × ℕ). d.1 ≤ now) z

abbrev pub has : ℕ → ZSet → Bool
has m z = is_some (zfind m z)

place_first : (e : ℕ × ℕ) (z : ZSet) → All (λ (d : ℕ × ℕ). e.1 ≤ d.1) z → place e z ≡ e ∷ z
place_first e [] h = refl
place_first e (d ∷ z) h = ground arith

-- A set that was filled in order is in order.
pub ordered-Ascending : (z : ZSet) → Ascending z → ordered z ≡ z
unfolding ordered
ordered-Ascending [] h = refl
ordered-Ascending (e ∷ z) h = rw (ordered-Ascending z h.1) (place_first e z h.0)

pub zput_new : (m s : ℕ) (z : ZSet) → has m z ≡ false → zput m s z ≡ z ++ (m, s) ∷ []
unfolding zput zfind
zput_new m s [] h = refl
zput_new m s (e ∷ z) h = ground (arith, zput_new m s z)

pub has-zput : (k m s : ℕ) (z : ZSet) → has k (zput m s z) ≡ (if k == m then true else has k z)
unfolding zput zfind
has-zput k m s [] = ground arith
has-zput k m s (e ∷ z) = ground (arith, has-zput k m s z)

has-place :
    (k : ℕ) (e : ℕ × ℕ) (z : ZSet) → has k (place e z) ≡ (if k == e.0 then true else has k z)
unfolding zfind
has-place k e [] = ground arith
has-place k e (d ∷ z) = ground (arith, has-place k e z)

pub has-ordered : (k : ℕ) (z : ZSet) → has k (ordered z) ≡ has k z
unfolding ordered zfind
has-ordered k [] = refl
has-ordered k (e ∷ z) = ground (arith, has-ordered k z, has-place k e (ordered z))

pub index_of-has : (k : ℕ) (z : ZSet) → is_some (index_of k (members z)) ≡ has k z
unfolding index_of zfind
index_of-has k [] = refl
index_of-has k (e ∷ z) = ground (arith, index_of-has k z)

All-zdrop {κ} : (P : ℕ × ℕ → Type κ) (m : ℕ) (z : ZSet) → All P z → All P (zdrop m z)
unfolding zdrop
All-zdrop P m [] h = tt
All-zdrop P m (e ∷ z) h = ground (arith, All-zdrop P m z h.1)

Ascending-zdrop : (m : ℕ) (z : ZSet) → Ascending z → Ascending (zdrop m z)
unfolding zdrop
Ascending-zdrop m [] h = tt
Ascending-zdrop m (e ∷ z) h =
    ground (arith, Ascending-zdrop m z h.1, All-zdrop (λ (d : ℕ × ℕ). e.1 ≤ d.1) m z h.0)

Distinct-zdrop : (m : ℕ) (z : ZSet) → Distinct z → Distinct (zdrop m z)
unfolding zdrop
Distinct-zdrop m [] h = tt
Distinct-zdrop m (e ∷ z) h =
    ground (arith, Distinct-zdrop m z h.1, All-zdrop (λ (d : ℕ × ℕ). e.0 ≢ d.0) m z h.0)

All-arrived :
    (s : ℕ) (z : ZSet)
    → All (λ (d : ℕ × ℕ). d.1 ≤ s) z
    → (t : ℕ) → s ≤ t
    → All (λ (d : ℕ × ℕ). d.1 ≤ t) z
All-arrived s [] h t le = tt
All-arrived s (d ∷ z) h t le = (omega arith, All-arrived s z h.1 t le)

Ascending-append :
    (m s : ℕ) (z : ZSet)
    → Ascending z
    → All (λ (d : ℕ × ℕ). d.1 ≤ s) z
    → Ascending (z ++ (m, s) ∷ [])
Ascending-append m s [] h a = (tt, tt)
Ascending-append m s (e ∷ z) h a =
    (All-append (λ (d : ℕ × ℕ). e.1 ≤ d.1) z _ h.0 (a.0, tt), Ascending-append m s z h.1 a.1)

Distinct-append : (m s : ℕ) (z : ZSet) → Distinct z → has m z ≡ false → Distinct (z ++ (m, s) ∷ [])
unfolding zfind
Distinct-append m s [] h a = (tt, tt)
Distinct-append m s (e ∷ z) h a = (
  All-append (λ (d : ℕ × ℕ). e.0 ≢ d.0) z _ h.0 (ground arith, tt),
  Distinct-append m s z h.1 (ground arith),
)

-- A queue stays one as time passes, as visitors join, and as they leave.
pub IsQueue-later : (now later : ℕ) (z : ZSet) → now ≤ later → IsQueue now z → IsQueue later z
IsQueue-later now later z le q = record {
  ascending = q.ascending;
  distinct = q.distinct;
  arrived = All-arrived now z q.arrived later le;
}

pub zput-IsQueue :
    (now m : ℕ) (z : ZSet) → has m z ≡ false → IsQueue now z → IsQueue now (zput m now z)
zput-IsQueue now m z h q = rw (zput_new m now z h) (record {
  ascending = Ascending-append m now z q.ascending q.arrived;
  distinct = Distinct-append m now z q.distinct h;
  arrived = All-append (λ (d : ℕ × ℕ). d.1 ≤ now) z _ q.arrived (omega arith, tt);
})

pub zdrop-IsQueue : (now m : ℕ) (z : ZSet) → IsQueue now z → IsQueue now (zdrop m z)
zdrop-IsQueue now m z q = record {
  ascending = Ascending-zdrop m z q.ascending;
  distinct = Distinct-zdrop m z q.distinct;
  arrived = All-zdrop (λ (d : ℕ × ℕ). d.1 ≤ now) m z q.arrived;
}

pub members-append : (z y : ZSet) → members (z ++ y) ≡ members z ++ members y
members-append [] y = refl
members-append (e ∷ z) y = ap (λ l. e.0 ∷ l) (members-append z y)

-- Dropping a member takes it out of the order and leaves the others in theirs.
abbrev pub without : ℕ → List ℕ → List ℕ
without m [] = []
without m (x ∷ xs) = let rest = x ∷ without m xs in if m == x then xs else rest

pub members-zdrop : (m : ℕ) (z : ZSet) → members (zdrop m z) ≡ without m (members z)
unfolding zdrop
members-zdrop m [] = refl
members-zdrop m (e ∷ z) = ground (arith, members-zdrop m z)

pub index_of-append :
    (m : ℕ) (xs : List ℕ)
    → is_some (index_of m xs) ≡ false
    → index_of m (xs ++ m ∷ []) ≡ some (length xs)
unfolding index_of
index_of-append m [] h = ground arith
index_of-append m (x ∷ xs) h = ground (arith, index_of-append m xs)
