-- ===== src/Portal/Requests/Own.antt =====
-- About `reply_to` of apps/portal/services/tickets.py: whose requests it reaches, and what it leaves.
use azm_crm.Prelude.{
  ℕ, String, Option, none, some, Bool, true, List, [], ◌∷◌, ◌++◌, ◌==◌, leb, first, keep, member,
  update_where, is_some, not, ◌≡◌, ◌⊎◌, inl, inr, refl, arith, All, Bool-cases, subst,
}
use azm_crm.Tickets.Model.{Ticket, new, opened, shared, inbound, can_transition_to}
use azm_crm.Tickets.Lifecycle
use azm_crm.Tickets.Lifecycle.{
  reopen_for_customer_reply, apply_transition, is_finished, stamp, save,
}
use azm_crm.Tickets.Lifecycle.Stamps.{finished_may_reopen, unfinished}
use azm_crm.Portal.Model.{Account}
use azm_crm.Portal.Requests.{
  Desk, contact_ids_for, is_theirs, place_newest, newest_first, requests_for, request_for, Reply,
  replied, not_theirs, refused, reply_to, reply_on,
}

All-keep : (p : Ticket → Bool) (rows : List Ticket) → All (λ (t : Ticket). p t ≡ true) (keep p rows)
All-keep p [] = tt
All-keep p (t ∷ rows) = elim (Bool-cases (p t)) [
  | inl h ↦ rw h (h, All-keep p rows)
  | inr h ↦ rw h (All-keep p rows)
]

All-place_newest {κ} :
    (P : Ticket → Type κ) (t : Ticket) (rows : List Ticket)
    → P t
    → All P rows
    → All P (place_newest t rows)
All-place_newest P t [] h k = (h, tt)
All-place_newest P t (u ∷ rows) h k = elim (Bool-cases (leb u.created_at t.created_at)) [
  | inl e ↦ rw e (h, k)
  | inr e ↦ rw e (k.0, All-place_newest P t rows h k.1)
]

All-newest_first {κ} :
    (P : Ticket → Type κ) (rows : List Ticket) → All P rows → All P (newest_first rows)
unfolding newest_first
All-newest_first P [] h = tt
All-newest_first P (t ∷ rows) h =
    All-place_newest P t (newest_first rows) h.0 (All-newest_first P rows h.1)

All-first {κ} :
    (P : Ticket → Type κ) (p : Ticket → Bool) (rows : List Ticket) (t : Ticket)
    → All P rows
    → first p rows ≡ some t
    → P t
All-first P p [] t h e = cc
All-first P p (u ∷ rows) t h e = elim (Bool-cases (p u)) [
  | inl k ↦ subst P (some_inj (rw k at e)) h.0
  | inr k ↦ All-first P p rows t h.1 (rw k at e)
]
  where
    some_inj : {x y : Ticket} → some x ≡ some y → x ≡ y
    some_inj q = ground arith

request_for_theirs :
    (a : Account) (reference : String) (d : Desk) (t : Ticket)
    → request_for a reference d ≡ some t
    → is_theirs (contact_ids_for a d) t ≡ true
unfolding request_for requests_for
request_for_theirs a reference d t e =
    All-first (λ (u : Ticket). is_theirs (contact_ids_for a d) u ≡ true) _ _ t
      (All-newest_first _ _ (All-keep (is_theirs (contact_ids_for a d)) d.tickets)) e

theirs_lem :
    (ids : List ℕ) (t : Ticket)
    → is_theirs ids t ≡ true
    → (member t.contact ids ≡ true) × (t.deleted_at ≡ none)
theirs_lem ids t h = elim (Bool-cases (member t.contact ids)) [
  | inl k ↦ (k, kept t (rw k at h))
  | inr k ↦ cc (rw k at h)
]
  where
    kept : (u : Ticket) → not (is_some u.deleted_at) ≡ true → u.deleted_at ≡ none
    kept u q = ground arith

-- What reopening does to a ticket, whose row the save turns into `t'`.
abbrev pub IsReopened : Ticket → Ticket → List Lifecycle.Field → Type 0
IsReopened t t' fields =
    (save fields t' t ≡ t')
    × (t' ≡ record t { status = t'.status; resolved_at = t'.resolved_at })
    × ((((t.status ≡ new) ⊎ (t.status ≡ opened)) × (t' ≡ t))
        ⊎ ((is_finished t.status ≡ true) × (t'.status ≡ opened) × (t'.resolved_at ≡ none)))

stamp-IsReopened :
    (now : ℕ) (t : Ticket) (was : Option ℕ)
    → is_finished t.status ≡ true
    → t.resolved_at ≡ was
    → IsReopened t (stamp now opened was t).0 (stamp now opened was t).1
unfolding save
stamp-IsReopened now t none done e = (refl, refl, inr (done, refl, e))
stamp-IsReopened now t (some m) done e = (refl, refl, inr (done, refl, refl))

reopen-IsReopened :
    (now : ℕ) (t : Ticket)
    → (t' : Ticket) × (fields : List Lifecycle.Field) × (reopen_for_customer_reply now t
        ≡ Lifecycle.ok (t', fields))
      × IsReopened t t' fields
unfolding reopen_for_customer_reply apply_transition can_transition_to save
reopen-IsReopened now t = elim (Bool-cases (is_finished t.status)) [
  | inl e ↦
      let (ne, may) = finished_may_reopen t.status e in
      let moved : Ticket × List Lifecycle.Field = stamp now opened t.resolved_at t in
      (moved.0, moved.1, rw (e, ne, may) refl, stamp-IsReopened now t t.resolved_at e refl)
  | inr e ↦ (t, [], rw e refl, (refl, refl, inl (unfinished t.status e, refl)))
]

-- How `reply_to` comes out. It replied: the ticket is of a contact that carries the account's address
-- and is not deleted, the message is public and inbound on it and is the last of the table, and
-- the ticket is saved as reopening leaves it. Or the reference is not theirs, and nothing changed.
abbrev pub IsReply : Account → String → Desk → Reply × Desk → Type 0
IsReply a reference d (replied m, d') =
    (t : Ticket) × (t' : Ticket) × (fields : List Lifecycle.Field) × (request_for a reference d
      ≡ some t)
    × (member t.contact (contact_ids_for a d) ≡ true)
    × (t.deleted_at ≡ none)
    × (m.ticket ≡ t.pk)
    × (m.visibility ≡ shared)
    × (m.direction ≡ inbound)
    × (d'.messages ≡ d.messages ++ m ∷ [])
    × (d'.tickets ≡ update_where (λ r. r.pk == t.pk) (save fields t') d.tickets)
    × IsReopened t t' fields
IsReply a reference d (not_theirs, d') = (request_for a reference d ≡ none) × (d' ≡ d)
IsReply a reference d (refused, d') = ⊥

-- `reply_to` never fails on the ticket's status. Either it replies on the ticket of that
-- reference which `request_for` finds, which is of a contact that carries the account's address
-- and is not deleted: then one message is added, public and inbound on that ticket, and the save
-- leaves the ticket's row as it was if it was NEW or OPEN, and otherwise OPEN without a
-- resolution moment and the same in all else. Or `request_for` finds none, and nothing is
-- changed.
pub reply_to-IsReply :
    (a : Account) (reference body : String) (d : Desk)
    → IsReply a reference d (reply_to a reference body d)
unfolding reply_to
reply_to-IsReply a reference body d = found (request_for a reference d) refl
  where
    found :
        (row : Option Ticket)
        → request_for a reference d ≡ row
        → IsReply a reference d (reply_on row body d)
    found none e = (e, refl)
    found (some t) e =
        let (t', fields, done, as_saved) = reopen-IsReopened d.now t in
        let own = theirs_lem (contact_ids_for a d) t (request_for_theirs a reference d t e) in
        rw done (t, t', fields, e, own.0, own.1, refl, refl, refl, refl, refl, as_saved)
