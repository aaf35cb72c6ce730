-- ===== src/Tickets/Lifecycle/Stamps.antt =====
-- About apps/tickets/services/lifecycle.py: the resolution stamp, the reopening on a customer's
-- reply, and whole histories of a ticket.
use azm_crm.Prelude.{
  ℕ, ◌≡◌, refl, ◌⊎◌, inl, inr, Option, none, List, [], ◌∷◌, arith, true, false, Bool-cases, some,
  Bool, ◌&&◌, ◌||◌, not, if◌then◌else◌,
}
use azm_crm.Tickets.Model.{
  Ticket, Status, new, opened, resolved, closed, Requested, known, unknown, allowed_transitions,
  can_transition_to,
}
use azm_crm.Tickets.Lifecycle.{
  Result, ok, invalid, Field, same_status, stamp, is_finished, apply_transition,
}

pub finished_may_reopen :
    (s : Status)
    → is_finished s ≡ true
    → (same_status opened s ≡ false) × (allowed_transitions s opened ≡ true)
finished_may_reopen new h = ground arith
finished_may_reopen _ h = ground arith

pub unfinished : (s : Status) → is_finished s ≡ false → (s ≡ new) ⊎ (s ≡ opened)
unfinished new h = inl refl
unfinished opened h = inr refl
unfinished _ h = cc

abbrev pub is_settled : Status → Bool
is_settled s = same_status resolved s || same_status closed s

-- A history of requests. One that is refused leaves the ticket as it was.
abbrev pub after : Ticket → Result (Ticket × List Field) → Ticket
after t (ok (t', _)) = t'
after t (invalid _ _) = t

unfoldable pub run : Ticket → List (ℕ × Requested) → Ticket
run t [] = t
run t ((now, r) ∷ rs) = run (after t (apply_transition now t r)) rs

-- The moment of the last request of a history that made the ticket RESOLVED when it was not, or
-- `since` if there is none.
abbrev pub becomes_resolved : Ticket → Ticket → Bool
becomes_resolved t t' = same_status resolved t'.status && not (same_status resolved t.status)

unfoldable pub resolved_since : Option ℕ → Ticket → List (ℕ × Requested) → Option ℕ
resolved_since since t [] = since
resolved_since since t ((now, r) ∷ rs) =
    let t' = after t (apply_transition now t r) in
    resolved_since (if becomes_resolved t t' then some now else since) t' rs

-- The resolution moment of a RESOLVED ticket is the one given, and a ticket that is neither RESOLVED
-- nor CLOSED has none.
abbrev pub IsStamped : Option ℕ → Ticket → Type 0
IsStamped since t =
    (t.status ≡ resolved → t.resolved_at ≡ since)
    × (is_settled t.status ≡ false → t.resolved_at ≡ none)

-- What holds after a call, if `since` held before it.
abbrev Moved : ℕ → Option ℕ → Ticket → Ticket → Type 0
Moved now since t t' = IsStamped (if becomes_resolved t t' then some now else since) t'

unmoved : (now : ℕ) (since : Option ℕ) (t : Ticket) → IsStamped since t → Moved now since t t
unmoved now since t h = rw (and_not (same_status resolved t.status)) h
  where
    and_not : (b : Bool) → (b && not b) ≡ false
    and_not true = refl
    and_not false = refl

stamp-Moved :
    (now : ℕ) (since : Option ℕ) (s : Status) (was : Option ℕ) (t : Ticket)
    → t.resolved_at ≡ was
    → same_status s t.status ≡ false
    → Moved now since t (stamp now s was t).0
stamp-Moved now since resolved was t e other = rw other (λ h. refl, λ h. absurd (cc h))
stamp-Moved now since new none t e other = (λ h. absurd (cc h), λ h. e)
stamp-Moved now since opened none t e other = (λ h. absurd (cc h), λ h. e)
stamp-Moved now since _ none t e other = (λ h. absurd (cc h), λ h. e)
stamp-Moved now since _ (some m) t e other = (λ h. absurd (cc h), λ h. refl)

after-IsStamped :
    (now : ℕ) (since : Option ℕ) (t : Ticket) (r : Requested)
    → IsStamped since t
    → Moved now since t (after t (apply_transition now t r))
unfolding apply_transition
after-IsStamped now since t (known s) h = elim (Bool-cases (same_status s t.status)) [
  | inl e ↦ rw e (unmoved now since t h)
  | inr e ↦ elim (Bool-cases (can_transition_to t (known s))) [
    | inl f ↦ rw (e, f) (stamp-Moved now since s t.resolved_at t refl e)
    | inr f ↦ rw (e, f) (unmoved now since t h)
  ]
]
after-IsStamped now since t (unknown x) h = unmoved now since t h

-- After every history of requests, refused ones among them, a RESOLVED ticket has as its
-- resolution moment that of the last request that made it RESOLVED when it was not, and a ticket
-- that is neither RESOLVED nor CLOSED has none, if the ticket had such a moment, for a given one,
-- at the start. Of a CLOSED ticket nothing is said.
pub run-IsStamped :
    (rs : List (ℕ × Requested)) (since : Option ℕ) (t : Ticket)
    → IsStamped since t
    → IsStamped (resolved_since since t rs) (run t rs)
unfolding run resolved_since
run-IsStamped [] since t h = h
run-IsStamped ((now, r) ∷ rs) since t h =
    run-IsStamped rs _ (after t (apply_transition now t r)) (after-IsStamped now since t r h)
