-- ===== src/Tickets/Lifecycle/Edges.antt =====
-- About apps/tickets/services/lifecycle.py: the status diagram, and the outcomes of a request.
use azm_crm.Prelude.{ℕ, ◌≡◌, refl, ◌≢◌, ◌⊎◌, inl, inr, Option, List, arith, true, Bool-cases, sym}
use azm_crm.Tickets.Model.{
  Ticket, Status, new, opened, pending_customer, resolved, closed, Requested, known, unknown,
  allowed_transitions,
}
use azm_crm.Tickets.Lifecycle.{Result, ok, invalid, Field, same_status, stamp, apply_transition}

-- The lifecycle as confirmed with the stakeholders: one constructor for each permitted edge.
infix 40 ◌⟶◌
pub data ◌⟶◌ : Status → Status → Type 0 where
  triage : new ⟶ opened
  resolve_at_once : new ⟶ resolved
  ask : opened ⟶ pending_customer
  resolve : opened ⟶ resolved
  answer : pending_customer ⟶ opened
  resolve_unanswered : pending_customer ⟶ resolved
  reopen : resolved ⟶ opened
  close : resolved ⟶ closed
  revive : closed ⟶ opened

ruleset edges =
    (triage, resolve_at_once, ask, resolve, answer, resolve_unanswered, reopen, close, revive)

allowed_edge : (c s : Status) → allowed_transitions c s ≡ true → c ⟶ s
allowed_edge new opened h = triage
allowed_edge new resolved h = resolve_at_once
allowed_edge opened pending_customer h = ask
allowed_edge opened resolved h = resolve
allowed_edge pending_customer opened h = answer
allowed_edge pending_customer resolved h = resolve_unanswered
allowed_edge resolved opened h = reopen
allowed_edge resolved closed h = close
allowed_edge closed opened h = revive
allowed_edge _ _ h = cc

edge_allowed : {c s : Status} → c ⟶ s → allowed_transitions c s ≡ true
edge_allowed triage = refl
edge_allowed resolve_at_once = refl
edge_allowed ask = refl
edge_allowed resolve = refl
edge_allowed answer = refl
edge_allowed resolve_unanswered = refl
edge_allowed reopen = refl
edge_allowed close = refl
edge_allowed revive = refl

pub same_status_sound : (a b : Status) → same_status a b ≡ true → a ≡ b
same_status_sound new new h = refl
same_status_sound opened opened h = refl
same_status_sound pending_customer pending_customer h = refl
same_status_sound resolved resolved h = refl
same_status_sound closed closed h = refl
same_status_sound _ _ h = cc

pub same_status_refl : (a : Status) → same_status a a ≡ true
same_status_refl new = refl
same_status_refl _ = refl

-- What a call may do to a ticket: nothing, when the status is the current one; one edge of the
-- diagram; or a refusal that names what was asked.
abbrev pub Outcome : Ticket → Requested → Result (Ticket × List Field) → Type 0
Outcome t (known s) (ok (t', _)) = (t'.status ≡ s) × ((t' ≡ t) ⊎ (t.status ⟶ s))
Outcome t (unknown x) (ok _) = ⊥
Outcome t (known s) (invalid c r) =
    (c ≡ t.status) × (r ≡ known s) × (s ≢ t.status) × (¬ (t.status ⟶ s))
Outcome t (unknown x) (invalid c r) = (c ≡ t.status) × (r ≡ unknown x)

pub stamp-status :
    (now : ℕ) (s : Status) (r : Option ℕ) (t : Ticket) → (stamp now s r t).0.status ≡ s
stamp-status now resolved r t = refl
stamp-status now new r t = ground arith
stamp-status now _ r t = ground arith

-- A call of `apply_transition` that returns has given the ticket the status asked for, and either
-- the ticket is unchanged or the diagram has that edge. A call that refuses names the current
-- status and the one asked for, which is unknown, or is another than the current one with no edge
-- to it.
pub apply_transition-Outcome :
    (now : ℕ) (t : Ticket) (r : Requested) → Outcome t r (apply_transition now t r)
unfolding apply_transition
apply_transition-Outcome now t (known s) = elim (Bool-cases (same_status s t.status)) [
  | inl e ↦ rw e (sym (same_status_sound s t.status e), inl refl)
  | inr ne ↦ elim (Bool-cases (allowed_transitions t.status s)) [
    | inl e ↦ rw (ne, e) (stamp-status now s t.resolved_at t, inr (allowed_edge t.status s e))
    | inr e ↦
        rw (ne, e)
          (refl, refl, λ q. cc (same_status_refl t.status, q), λ edge. cc (edge_allowed edge))
  ]
]
apply_transition-Outcome now t (unknown x) = (refl, refl)
