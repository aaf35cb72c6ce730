-- ===== src/Chat/Sockets/Limiter/Rate.antt =====
-- About `RateLimiter` of apps/chat/consumers/base.py: how many frames of a connection it lets
-- through, over any sequence of moments.
use azm_crm.Prelude.{
  ℕ, suc, ◌+◌, ◌<◌, ◌-◌, ◌*◌, ◌≤◌, Bool, true, false, List, [], ◌∷◌, ltb, ◌≡◌, refl, ap, ◌∙◌, arith,
  length, Bool-cases, inl, inr,
}
use azm_crm.Chat.Sockets.Limiter.{Limiter, fresh, refilled, allow}

-- The moments never go back, from the last check on.
abbrev pub IsClockwise : ℕ → List ℕ → Type 0
IsClockwise from [] = Unit
IsClockwise from (at ∷ ats) = (from ≤ at) × IsClockwise at ats

-- The limiter after frames at these moments, and how many it let through.
abbrev pub one_if : Bool → ℕ
one_if true = 1
one_if false = 0

unfoldable pub run : List ℕ → Limiter → ℕ × Limiter
run [] l = (0, l)
run (at ∷ ats) l =
    let (passed, l') = allow at l in let (n, last) = run ats l' in (one_if passed + n, last)

mul_split : (a b r : ℕ) → a ≤ b → (b - a) * r + a * r ≡ b * r
mul_split a b r h = grind arith

-- What a frame takes out of the bucket, and the time since the last one puts in.
allow_cost :
    (second refill at : ℕ) (l : Limiter)
    → l.second ≡ second
    → l.refill ≡ refill
    → l.checked_at ≤ at
    → one_if (allow at l).0 * second + (allow at l).1.tokens + l.checked_at * refill
      ≤ l.tokens + at * refill
unfolding allow
allow_cost second refill at l s r h =
    let into = ap (λ (x : ℕ). (at - l.checked_at) * x) r in
    elim (Bool-cases (ltb (refilled at l) l.second)) [
      | inl e ↦ rw e (omega (arith, into, mul_split l.checked_at at refill h))
      | inr e ↦ ground (arith, into, mul_split l.checked_at at refill h)
    ]

-- A check changes the bucket's tokens and the moment alone.
allow_keeps :
    (at : ℕ) (l : Limiter)
    → ((allow at l).1.checked_at ≡ at)
      × ((allow at l).1.second ≡ l.second)
      × ((allow at l).1.refill ≡ l.refill)
      × ((allow at l).1.capacity ≡ l.capacity)
unfolding allow
allow_keeps at l = ground arith

module _ (second refill : ℕ) where
  run_cost :
      (ats : List ℕ) (l : Limiter)
      → l.second ≡ second
      → l.refill ≡ refill
      → IsClockwise l.checked_at ats
      → (run ats l).0 * second + (run ats l).1.tokens + l.checked_at * refill
        ≤ l.tokens + (run ats l).1.checked_at * refill
  unfolding run
  run_cost [] l s r h = omega arith
  run_cost (at ∷ ats) l s r h =
      let k = allow_keeps at l in
      let l' = (allow at l).1 in
      let rest = run_cost ats l' (k.1 ∙ s) (k.2 ∙ r) (rw k.0 h.1) in
      let cost = allow_cost second refill at l s r h.0 in
      let moved = ap (λ (c : ℕ). c * refill) k.0 in grind arith

-- A connection's limiter lets through no more frames, over moments that do not go back, than the
-- capacity and what the refill rate gives for the time from the connection to the last of them.
pub run-fresh_bound :
    (second capacity refill opened : ℕ) (ats : List ℕ)
    → IsClockwise opened ats
    → (run ats (fresh second capacity refill opened)).0 * second + opened * refill
      ≤ capacity * second + (run ats (fresh second capacity refill opened)).1.checked_at * refill
unfolding fresh
run-fresh_bound second capacity refill opened ats h =
    let cost = run_cost second refill ats (fresh second capacity refill opened) refl refl h in
    omega arith

-- Each moment comes a gap after the one before.
abbrev pub IsSpaced : ℕ → ℕ → List ℕ → Type 0
IsSpaced gap from [] = Unit
IsSpaced gap from (at ∷ ats) = (from + gap ≤ at) × IsSpaced gap at ats

allow_patient :
    (gap at : ℕ) (l : Limiter)
    → l.second ≤ l.capacity * l.second
    → l.second ≤ gap * l.refill
    → l.checked_at + gap ≤ at
    → (allow at l).0 ≡ true
unfolding allow
allow_patient gap at l c g h =
    let enough : gap * l.refill ≤ (at - l.checked_at) * l.refill = grind arith in ground arith

run_patient :
    (gap : ℕ) (ats : List ℕ) (l : Limiter)
    → l.second ≤ l.capacity * l.second
    → l.second ≤ gap * l.refill
    → IsSpaced gap l.checked_at ats
    → (run ats l).0 ≡ length ats
unfolding run
run_patient gap [] l c g h = refl
run_patient gap (at ∷ ats) l c g h =
    let k = allow_keeps at l in
    let rest =
      run_patient gap ats (allow at l).1 (rw (k.1, k.3) c) (rw (k.1, k.2) g) (rw k.0 h.1) in
    rw (allow_patient gap at l c g h.0) (omega (arith, rest))

allow_full :
    (second capacity refill opened at : ℕ)
    → second ≤ capacity * second
    → (allow at (fresh second capacity refill opened)).0 ≡ true
unfolding allow fresh
allow_full second capacity refill opened at full = ground arith

-- With a positive capacity, a client who waits between frames long enough for one token to come
-- back is never throttled, however long the connection lasts.
pub patient_passes :
    (second capacity refill gap opened first : ℕ) (ats : List ℕ)
    → 0 < capacity
    → second ≤ gap * refill
    → IsSpaced gap first ats
    → (run (first ∷ ats) (fresh second capacity refill opened)).0 ≡ suc (length ats)
unfolding run fresh
patient_passes second capacity refill gap opened first ats c g h =
    let l = fresh second capacity refill opened in
    let full : second ≤ capacity * second = grind arith in
    let k = allow_keeps first l in
    let rest =
      run_patient gap ats (allow first l).1 (rw (k.1, k.3) full) (rw (k.1, k.2) g) (rw k.0 h) in
    rw (allow_full second capacity refill opened first full) (omega (arith, rest))
