-- ===== src/Tickets/Lifecycle/Saves.antt =====
-- About the saved fields of apps/tickets/services/lifecycle.py.
use azm_crm.Prelude.{ℕ, ◌≡◌, refl, none, some, List, arith, Option}
use azm_crm.Tickets.Model.{Ticket, Status, new, resolved, Requested, known, unknown}
use azm_crm.Tickets.Lifecycle.{ok, Field, stamp, apply_transition, save}

stamp-save :
    (now : ℕ) (s : Status) (r : Option ℕ) (t : Ticket)
    → save (stamp now s r t).1 (stamp now s r t).0 t ≡ (stamp now s r t).0
unfolding save
stamp-save now resolved r t = refl
stamp-save now new none t = refl
stamp-save now new (some m) t = refl
stamp-save now _ none t = refl
stamp-save now _ (some m) t = refl

-- When `apply_transition` returns, the fields it saves are enough: a row equal to the ticket
-- before the call is equal to the ticket after it.
pub save-apply_transition :
    (now : ℕ) (t : Ticket) (r : Requested) (t' : Ticket) (fs : List Field)
    → apply_transition now t r ≡ ok (t', fs)
    → save fs t' t ≡ t'
unfolding apply_transition save
save-apply_transition now t (known s) t' fs e = ground (arith, stamp-save now s t.resolved_at t)
save-apply_transition now t (unknown x) t' fs e = ground arith
