-- ===== src/Tickets/Lifecycle/Tests.antt =====
-- Tickets on which the laws of the ticket's lifecycle are applied.
use azm_crm.Prelude.{ℕ, none, some, [], ◌∷◌, List, ◌≡◌, refl}
use azm_crm.Tickets.Model.{
  Ticket, Message, new, opened, resolved, closed, normal, portal, Requested, known, unknown,
  inbound, shared, internal, not_applicable, Visibility,
}
use azm_crm.Tickets.Lifecycle.{apply_transition, ok, status, resolved_at}
use azm_crm.Tickets.Lifecycle.Edges.{Outcome, apply_transition-Outcome}
use azm_crm.Tickets.Lifecycle.Stamps.{IsStamped, run-IsStamped, run, resolved_since}

abbrev fresh : Ticket
fresh = record {
  pk = 1;
  reference = "AZM-2026-00001";
  organization = none;
  contact = 7;
  subject = "Printer";
  description = "";
  category = 2;
  priority = normal;
  status = new;
  assigned_to = none;
  origin_channel = portal;
  first_response_at = none;
  resolved_at = none;
  department = 3;
  branch = 4;
  created_at = 10;
  deleted_at = none;
  deleted_by = none;
}

abbrev solved : Ticket
solved = record fresh { status = resolved; resolved_at = some 20 }

abbrev shut : Ticket
shut = record fresh { status = closed }

abbrev history : List (ℕ × Requested)
history =
    (12, known opened) ∷ (15, unknown "archived") ∷ (20, known resolved) ∷ (30, known closed) ∷ []

solving : apply_transition 20 fresh (known resolved) ≡ ok (solved, status ∷ resolved_at ∷ [])
unfolding apply_transition
solving = refl

closing : apply_transition 30 solved (known closed) ≡ ok (shut, status ∷ resolved_at ∷ [])
unfolding apply_transition
closing = refl

history_closes : (run fresh history).status ≡ closed
unfolding run apply_transition
history_closes = refl

apply_transition-Outcome_example :
    Outcome fresh (known closed) (apply_transition 20 fresh (known closed))
apply_transition-Outcome_example = apply_transition-Outcome 20 fresh (known closed)

-- Resolved, and asked for once more.
abbrev resolving : List (ℕ × Requested)
resolving = (12, known opened) ∷ (20, known resolved) ∷ (30, known resolved) ∷ []

solved_once : resolved_since none fresh resolving ≡ some 20
unfolding resolved_since apply_transition
solved_once = refl

run-IsStamped_example : IsStamped (resolved_since none fresh resolving) (run fresh resolving)
run-IsStamped_example = run-IsStamped resolving none fresh (λ h. refl, λ h. refl)

abbrev message : ℕ → Visibility → Message
message n v = record {
  pk = n;
  ticket = 1;
  author = none;
  direction = inbound;
  visibility = v;
  channel = portal;
  body = "hello";
  delivery_status = not_applicable;
  delivery_error = "";
  external_id = "";
  created_at = n;
}

abbrev rows : List Message
rows = message 3 internal ∷ message 2 shared ∷ message 1 shared ∷ []
