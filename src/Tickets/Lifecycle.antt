-- ===== src/Tickets/Lifecycle.antt =====
-- apps/tickets/services/lifecycle.py: the only place that moves a ticket between statuses. A
-- call returns the ticket object with the fields that its `save` writes to the row.
pub mod Edges
pub mod Stamps
pub mod Saves
mod Tests
use azm_crm.Prelude.{ℕ, Option, none, some, Bool, true, false, ◌||◌, List, [], ◌∷◌, if◌then◌else◌}
use azm_crm.Tickets.Model.{
  Ticket, Status, new, opened, pending_customer, resolved, closed, Requested, known, unknown,
  can_transition_to,
}

-- `InvalidTransition(current, requested)`.
pub data Result {ℓ} (A : Type ℓ) : Type ℓ where
  ok : A → Result A
  invalid : Status → Requested → Result A

-- The names that `save(update_fields=...)` is given.
pub data Field : Type 0 where
  status resolved_at : Field

abbrev pub same_status : Status → Status → Bool
same_status new new = true
same_status opened opened = true
same_status pending_customer pending_customer = true
same_status resolved resolved = true
same_status closed closed = true
same_status _ _ = false

abbrev asks_for_current : Ticket → Requested → Bool
asks_for_current t (known s) = same_status s t.status
asks_for_current t (unknown _) = false

-- The stamps that the new status implies.
abbrev pub stamp : ℕ → Status → Option ℕ → Ticket → Ticket × List Field
stamp now resolved _ t =
    (record t { status = resolved; resolved_at = some now }, status ∷ resolved_at ∷ [])
stamp now s (some _) t = (record t { status = s; resolved_at = none }, status ∷ resolved_at ∷ [])
stamp now s none t = (record t { status = s }, status ∷ [])

abbrev move : ℕ → Requested → Ticket → Result (Ticket × List Field)
move now (known s) t = ok (stamp now s t.resolved_at t)
move now (unknown x) t = invalid t.status (unknown x)

unfoldable pub apply_transition : ℕ → Ticket → Requested → Result (Ticket × List Field)
unfolding can_transition_to
apply_transition now t r =
    if asks_for_current t r
    then ok (t, [])
    else if can_transition_to t r
    then move now r t
    else invalid t.status r

abbrev pub is_finished : Status → Bool
is_finished s = same_status s resolved || (same_status s closed || same_status s pending_customer)

unfoldable pub reopen_for_customer_reply : ℕ → Ticket → Result (Ticket × List Field)
unfolding apply_transition
reopen_for_customer_reply now t =
    if is_finished t.status then apply_transition now t (known opened) else ok (t, [])

-- `save(update_fields=...)`: the named columns of the row take the object's values.
abbrev write : Field → Ticket → Ticket → Ticket
write status object row = record row { status = object.status }
write resolved_at object row = record row { resolved_at = object.resolved_at }

unfoldable pub save : List Field → Ticket → Ticket → Ticket
save [] object row = row
save (f ∷ fs) object row = save fs object (write f object row)
