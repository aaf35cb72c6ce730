-- ===== src/Tickets/Desk/Scope.antt =====
-- About apps/tickets/views.py: what an action may change, and for whom.
use azm_crm.Prelude.{
  ℕ, String, Option, none, some, Bool, true, false, List, [], ◌∷◌, ◌++◌, first, ◌==◌, update_where,
  if◌then◌else◌, ◌≡◌, refl, sym, subst, Bool-cases, &&-eq-true, inl, inr, ◌⊎◌, All,
}
use mathlib.Core.List.{append-nil}
use text.Mathlib.Text.{◌==◌ as str_eq}
use azm_crm.Core.Text.{strip, is_empty}
use azm_crm.Attachments.{Upload}
use azm_crm.Chat.Model.{User}
use azm_crm.Intake.Office.{Category}
use azm_crm.Tickets.Model.{
  Ticket, Message, Priority, Status, new, opened, pending_customer, resolved, closed, Requested,
}
use azm_crm.Tickets.Lifecycle.{Result, ok, invalid, Field, save, apply_transition}
use azm_crm.Tickets.Lifecycle
use azm_crm.Tickets.Desk.{
  Desk, Answer, not_found, forbidden, in_scope, find_for_user, or_not_found, take_from, assign_to,
  find_agent, moved, set_fields, set_category, find_category, reply_on, note_on, answered,
  stamp_response, open_new, is_administrator, save_ticket, with_priority,
}
use azm_crm.Tickets.Desk

-- What a request asks for.
pub data Request : Type 0 where
  take : Request
  assign : Option ℕ → Request
  status : Requested → Request
  fields : Option Priority → Option (Option ℕ) → Request
  reply note : String → List Upload → Request

abbrev pub act : User → String → Request → Desk → Answer × Desk
act user reference take d = Desk.take user reference d
act user reference (assign wanted) d = Desk.assign user reference wanted d
act user reference (status requested) d = Desk.status user reference requested d
act user reference (fields p c) d = Desk.fields user reference p c d
act user reference (reply text files) d = Desk.reply user reference text files d
act user reference (note text files) d = Desk.note user reference text files d

-- The change keeps who may see the ticket, and whose it is, and the moment of a first answer that
-- was given.
abbrev pub Keeps : (Ticket → Ticket) → Type 0
Keeps f =
    (t : Ticket)
    → ((f t).pk ≡ t.pk)
      × ((f t).reference ≡ t.reference)
      × ((f t).contact ≡ t.contact)
      × ((f t).department ≡ t.department)
      × ((f t).branch ≡ t.branch)
      × ((at : ℕ) → t.first_response_at ≡ some at → (f t).first_response_at ≡ some at)

-- Only this ticket's row, and new messages on it.
abbrev pub Touches : Ticket → Desk → Desk → Type 0
Touches t d d' =
    (f : Ticket → Ticket) × (added : List Message) × (d'.tickets
      ≡ update_where (λ (u : Ticket). u.pk == t.pk) f d.tickets)
    × Keeps f
    × (d'.messages ≡ d.messages ++ added)
    × All (λ (m : Message). m.ticket ≡ t.pk) added

abbrev pub IsScoped : User → String → Desk → Answer × Desk → Type 0
IsScoped user reference d (answer, d') =
    (d' ≡ d)
    ⊎ ((t : Ticket) × (find_for_user user reference d ≡ some t)
        × (in_scope user t ≡ true)
        × (str_eq t.reference reference ≡ true)
        × Touches t d d')

abbrev Acts : Ticket → Desk → Answer × Desk → Type 0
Acts t d (answer, d') = (d' ≡ d) ⊎ Touches t d d'

saved : (t : Ticket) (f : Ticket → Ticket) (d : Desk) → Keeps f → Touches t d (save_ticket t.pk f d)
saved t f d k = (f, [], refl, k, sym (append-nil d.messages), tt)

update_same : (p : Ticket → Bool) (ts : List Ticket) → ts ≡ update_where p (λ t. t) ts
update_same p [] = refl
update_same p (t ∷ ts) = λ i. same (p t) i ∷ update_same p ts i
  where
    same : (b : Bool) → t ≡ (if b then t else t)
    same true = refl
    same false = refl

Keeps-answered : (now : ℕ) → Keeps (answered now)
Keeps-answered now t = go t.status t.first_response_at refl
  where
    go :
        (s : Status) (at : Option ℕ)
        → t.first_response_at ≡ at
        → let u = open_new s (stamp_response now at t) in
          (u.pk ≡ t.pk)
          × (u.reference ≡ t.reference)
          × (u.contact ≡ t.contact)
          × (u.department ≡ t.department)
          × (u.branch ≡ t.branch)
          × ((a : ℕ) → t.first_response_at ≡ some a → u.first_response_at ≡ some a)
    go new none e = (refl, refl, refl, refl, refl, λ a k. absurd (cc))
    go new (some at) e = (refl, refl, refl, refl, refl, λ a k. k)
    go opened none e = (refl, refl, refl, refl, refl, λ a k. absurd (cc))
    go opened (some at) e = (refl, refl, refl, refl, refl, λ a k. k)
    go pending_customer none e = (refl, refl, refl, refl, refl, λ a k. absurd (cc))
    go pending_customer (some at) e = (refl, refl, refl, refl, refl, λ a k. k)
    go resolved none e = (refl, refl, refl, refl, refl, λ a k. absurd (cc))
    go resolved (some at) e = (refl, refl, refl, refl, refl, λ a k. k)
    go closed none e = (refl, refl, refl, refl, refl, λ a k. absurd (cc))
    go closed (some at) e = (refl, refl, refl, refl, refl, λ a k. k)

Keeps-save : (fs : List Field) (object : Ticket) → Keeps (save fs object)
unfolding save
Keeps-save [] object t = (refl, refl, refl, refl, refl, λ at e. e)
Keeps-save (Lifecycle.status ∷ fs) object t =
    Keeps-save fs object (record t { status = object.status })
Keeps-save (Lifecycle.resolved_at ∷ fs) object t =
    Keeps-save fs object (record t { resolved_at = object.resolved_at })

Acts-take_from :
    (user : User) (holder : Option ℕ) (t : Ticket) (d : Desk) → Acts t d (take_from user holder t d)
Acts-take_from user none t d = inr (saved t _ d (λ u. (refl, refl, refl, refl, refl, λ at e. e)))
Acts-take_from user (some holder) t d = inl refl

Acts-assign_to : (o : Option User) (t : Ticket) (d : Desk) → Acts t d (assign_to o t d)
Acts-assign_to none t d = inl refl
Acts-assign_to (some u) t d = inr (saved t _ d (λ v. (refl, refl, refl, refl, refl, λ at e. e)))

Acts-moved : (r : Result (Ticket × List Field)) (t : Ticket) (d : Desk) → Acts t d (moved r t d)
Acts-moved (invalid current requested) t d = inl refl
Acts-moved (ok (t', fs)) t d = inr (saved t (save fs t') d (Keeps-save fs t'))

Keeps-with_priority : (p : Option Priority) → Keeps (with_priority p)
Keeps-with_priority none t = (refl, refl, refl, refl, refl, λ at e. e)
Keeps-with_priority (some p) t = (refl, refl, refl, refl, refl, λ at e. e)

Acts-set_category :
    (p : Option Priority) (c : Option Category) (t : Ticket) (d : Desk)
    → Acts t d (set_category p c t d)
Acts-set_category p none t d = inl refl
Acts-set_category p (some c) t d = inr (saved t _ d (Keeps-with_priority p))

Acts-set_fields :
    (p : Option Priority) (wanted : Option (Option ℕ)) (t : Ticket) (d : Desk)
    → Acts t d (set_fields p wanted t d)
Acts-set_fields p none t d = inr (saved t (with_priority p) d (Keeps-with_priority p))
Acts-set_fields p (some wanted) t d = Acts-set_category p (find_category t wanted d.categories) t d

Acts-reply_on :
    (user : User) (body : String) (files : List Upload) (t : Ticket) (d : Desk)
    → Acts t d (reply_on user body files t d)
Acts-reply_on user body files t d = elim (Bool-cases (is_empty body)) [
  | inl e ↦ rw e (inl refl)
  | inr e ↦ elim (Bool-cases d.broker_answers) [
    | inl b ↦ rw (e, b) (inr (answered d.now, _ ∷ [], refl, Keeps-answered d.now, refl, (refl, tt)))
    | inr b ↦ rw (e, b) (inr (answered d.now, _ ∷ [], refl, Keeps-answered d.now, refl, (refl, tt)))
  ]
]

Acts-note_on :
    (user : User) (body : String) (files : List Upload) (t : Ticket) (d : Desk)
    → Acts t d (note_on user body files t d)
Acts-note_on user body files t d = elim (Bool-cases (is_empty body)) [
  | inl e ↦ rw e (inl refl)
  | inr e ↦ rw e (
      inr (
        λ u. u,
        _ ∷ [],
        update_same _ d.tickets,
        λ u. (refl, refl, refl, refl, refl, λ at e. e),
        refl,
        (refl, tt),
      ))
]

first-passes :
    (p : Ticket → Bool) (ts : List Ticket) (t : Ticket) → first p ts ≡ some t → p t ≡ true
first-passes p [] t e = absurd (cc)
first-passes p (u ∷ us) t e = elim (Bool-cases (p u)) [
  | inl h ↦
      let found : some u ≡ some t = rw h at e in
      let same : u ≡ t = cc found in subst (λ v. p v ≡ true) same h
  | inr h ↦ first-passes p us t (rw h at e)
]

passes :
    (user : User) (reference : String) (d : Desk) (t : Ticket)
    → find_for_user user reference d ≡ some t
    → (in_scope user t ≡ true) × (str_eq t.reference reference ≡ true)
unfolding find_for_user
passes user reference d t e = &&-eq-true (in_scope user t) _ (first-passes _ d.tickets t e)

module _ (user : User) (reference : String) (d : Desk) where
  with_ticket :
      (t : Ticket) (r : Answer × Desk)
      → find_for_user user reference d ≡ some t
      → Acts t d r
      → IsScoped user reference d r
  with_ticket t (answer, d') e (inl same) = inl same
  with_ticket t (answer, d') e (inr touched) =
      let (scope, named) = passes user reference d t e in inr (t, e, scope, named, touched)

  on-IsScoped :
      (action : Ticket → Desk → Answer × Desk) (o : Option Ticket)
      → find_for_user user reference d ≡ o
      → ((t : Ticket) → Acts t d (action t d))
      → IsScoped user reference d (or_not_found o action d)
  on-IsScoped action none e acts = inl refl
  on-IsScoped action (some t) e acts = with_ticket t (action t d) e (acts t)

  found-IsScoped :
      (action : Ticket → Desk → Answer × Desk)
      → ((t : Ticket) → Acts t d (action t d))
      → IsScoped user reference d (or_not_found (find_for_user user reference d) action d)
  found-IsScoped action acts = on-IsScoped action (find_for_user user reference d) refl acts

-- Any action of a member of staff on any reference either changes nothing, or the reference is
-- that of a ticket in the user's own department and branch that is not deleted; then the only
-- changes to tickets and messages are to that ticket's row, which keeps its number, its
-- reference, its contact, its scope and the moment of its first answer if it had one, and new
-- messages on that ticket.
pub act-IsScoped :
    (user : User) (reference : String) (r : Request) (d : Desk)
    → IsScoped user reference d (act user reference r d)
unfolding Desk.take Desk.assign Desk.status Desk.fields Desk.reply Desk.note
act-IsScoped user reference take d =
    found-IsScoped user reference d _ (λ t. Acts-take_from user t.assigned_to t d)
act-IsScoped user reference (assign wanted) d = elim (Bool-cases (is_administrator user.role)) [
  | inl e ↦
      rw e
        (found-IsScoped user reference d _ (λ t. Acts-assign_to (find_agent t wanted d.users) t d))
  | inr e ↦ rw e (inl refl)
]
act-IsScoped user reference (status requested) d =
    found-IsScoped user reference d _ (λ t. Acts-moved (apply_transition d.now t requested) t d)
act-IsScoped user reference (fields p wanted) d =
    found-IsScoped user reference d _ (λ t. Acts-set_fields p wanted t d)
act-IsScoped user reference (reply text files) d =
    found-IsScoped user reference d _ (λ t. Acts-reply_on user (strip text) files t d)
act-IsScoped user reference (note text files) d =
    found-IsScoped user reference d _ (λ t. Acts-note_on user (strip text) files t d)
