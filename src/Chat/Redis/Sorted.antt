-- ===== src/Chat/Redis/Sorted.antt =====
-- The sorted sets: a dict from members to scores, in the order of insertion, which `sorted`
-- orders by score, and keeps in order where two scores are equal.
use azm_crm.Prelude.{ℕ, suc, Option, none, some, List, [], ◌∷◌, if◌then◌else◌, leb, ◌==◌, map}

abbrev pub ZSet : Type 0
ZSet = List (ℕ × ℕ)

abbrev pub place : ℕ × ℕ → ZSet → ZSet
place e [] = e ∷ []
place e (d ∷ z) = let rest = d ∷ place e z in if leb e.1 d.1 then e ∷ d ∷ z else rest

-- `sorted(items, key=score)`
unfoldable pub ordered : ZSet → ZSet
ordered [] = []
ordered (e ∷ z) = place e (ordered z)

-- `d.update({m: s})`
unfoldable pub zput : ℕ → ℕ → ZSet → ZSet
zput m s [] = (m, s) ∷ []
zput m s (e ∷ z) = let rest = e ∷ zput m s z in if m == e.0 then (m, s) ∷ z else rest

-- `d.pop(m, None)`
unfoldable pub zdrop : ℕ → ZSet → ZSet
zdrop m [] = []
zdrop m (e ∷ z) = let rest = e ∷ zdrop m z in if m == e.0 then z else rest

-- `d.get(m)`
unfoldable pub zfind : ℕ → ZSet → Option ℕ
zfind m [] = none
zfind m (e ∷ z) = let rest = zfind m z in if m == e.0 then some e.1 else rest

abbrev pub members : ZSet → List ℕ
members z = map (λ (e : ℕ × ℕ). e.0) z

abbrev pub bump : Option ℕ → Option ℕ
bump none = none
bump (some i) = some (suc i)

-- `l.index(m) if m in l else None`
unfoldable pub index_of : ℕ → List ℕ → Option ℕ
index_of m [] = none
index_of m (x ∷ xs) = let rest = bump (index_of m xs) in if m == x then some 0 else rest
