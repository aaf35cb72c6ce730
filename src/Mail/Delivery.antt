-- ===== src/Mail/Delivery.antt =====
-- About `send_ticket_reply_email` of apps/messaging/tasks.py: what reaches a customer's mailbox.
use Prim.Native.String.{String}
use azm_crm.Prelude.{
  ℕ, zero, suc, Option, none, some, true, List, [], ◌∷◌, ◌++◌, first, ◌==◌, update_where, ◌≡◌, refl,
  sym, ap, ◌∙◌, subst, Bool-cases, Option-cases, ==_iff, inl, inr, ◌⊎◌,
}
use azm_crm.Tickets.Model.{Ticket, Message, shared, DeliveryStatus, failed}
use azm_crm.Tickets.Visibility.{is_public, customer_facing_context}
use azm_crm.Tickets.Visibility.Boundary.{Holds, public_messages_for_exactly}
use azm_crm.Intake.References.{reply_to_address}
use azm_crm.Mail.{
  Body, reply, confirmation, Email, Post, Transport, address_of, language_of, portal_url,
  with_status, save_message, reply_email, Attempt, over, retried, answered, deliver_to, deliver_on,
  deliver_reply, again, attempts, send_ticket_reply_email, max_retries,
}

-- The mail shows its reader nothing but the message, the ticket's reference and subject, the portal's
-- address and messages of the ticket that are public.
abbrev pub IsNarrow : Message → Ticket → Post → Body → Type 0
IsNarrow m t p (reply language c) =
    (language ≡ language_of t.contact p)
    × (c.extra.body ≡ m.body)
    × (c.extra.portal ≡ portal_url "/portal/sign-in/" p)
    × (c.reference ≡ t.reference)
    × (c.subject ≡ t.subject)
    × ((k : Message) → Holds k c.public_messages → (k.ticket ≡ t.pk) × (k.visibility ≡ shared))
IsNarrow m t p (confirmation language reference portal) = ⊥

abbrev pub message_of : ℕ → Post → Option Message
message_of pk p = first (λ (m : Message). m.pk == pk) p.messages

abbrev pub ticket_of : Message → Post → Option Ticket
ticket_of m p = first (λ (t : Ticket). t.pk == m.ticket) p.tickets

-- The mail is for the contact of the message's ticket, and the message is public.
abbrev pub IsFor : ℕ → Post → Email → Type 0
IsFor pk p e =
    (m : Message) × (t : Ticket) × (message_of pk p ≡ some m)
    × (is_public m.visibility ≡ true)
    × (ticket_of m p ≡ some t)
    × (address_of t.contact p ≡ some e.to)
    × (e.about ≡ t.reference)
    × (e.reply_to ≡ reply_to_address t.reference p.domain)
    × IsNarrow m t p e.body

-- No more than one mail, and that one for the customer.
abbrev pub IsDelivered : ℕ → Post → Post → Type 0
IsDelivered pk p p' =
    (p'.outbox ≡ p.outbox) ⊎ ((e : Email) × (p'.outbox ≡ p.outbox ++ e ∷ []) × IsFor pk p e)

first-with_status :
    (pk : ℕ) (s : DeliveryStatus) (error : String) (ms : List Message) (m : Message)
    → first (λ (k : Message). k.pk == pk) ms ≡ some m
    → first
        (λ (k : Message). k.pk == pk)
        (update_where (λ (k : Message). k.pk == pk) (with_status s error) ms)
      ≡ some (with_status s error m)
first-with_status pk s error [] m e = absurd (cc)
first-with_status pk s error (k ∷ ks) m e = elim (Bool-cases (k.pk == pk)) [
  | inl h ↦
      let found : some k ≡ some m = rw h at e in
      rw (h, h)
        (ap (λ (o : Option Message). elim o [ none ↦ none | some j ↦ some (with_status s error j) ])
          found)
  | inr h ↦ rw (h, h) (first-with_status pk s error ks m (rw h at e))
]

narrow :
    (m : Message) (t : Ticket) (address : String) (p : Post)
    → IsNarrow m t p (reply_email m t address p).body
unfolding customer_facing_context
narrow m t address p = (
  refl,
  refl,
  refl,
  refl,
  refl,
  λ k h. let all = (public_messages_for_exactly t.pk p.messages k).0 h in (all.1, all.2),
)

-- What was found of a message is found again after it was marked.
IsFor-marked :
    (pk : ℕ) (error : String) (p : Post) (m : Message) (e : Email)
    → message_of pk p ≡ some m
    → IsFor pk (save_message pk (with_status failed error) p) e
    → IsFor pk p e
unfolding address_of portal_url
IsFor-marked pk error p m e found (m', t, found', public', on, at, about, back, shown) =
    let same : some m' ≡ some (with_status failed error m) =
      sym found' ∙ first-with_status pk failed error p.messages m found in
    let same' : m' ≡ with_status failed error m = cc same in
    (
      m,
      t,
      found,
      subst (λ (k : Message). is_public k.visibility ≡ true) same' public',
      subst (λ (k : Message). ticket_of k p ≡ some t) same' on,
      at,
      about,
      back,
      subst (λ (k : Message). IsNarrow k t p e.body) same' shown,
    )

-- One attempt of the task. One that asks for another has only marked the message, which is public
-- and was found.
abbrev IsAttempt : ℕ → Post → Attempt × Post → Type 0
IsAttempt pk p (over, p') = IsDelivered pk p p'
IsAttempt pk p (retried, p') =
    (m : Message) × (error : String) × (message_of pk p ≡ some m)
    × (p' ≡ save_message m.pk (with_status failed error) p)

module _ (transport : Transport) (pk : ℕ) (p : Post) (m : Message)
    (found : message_of pk p ≡ some m) (open_to : is_public m.visibility ≡ true) where
  answered-IsAttempt :
      (t : Ticket) (address : String)
      → ticket_of m p ≡ some t
      → address_of t.contact p ≡ some address
      → (o : Option String) → IsAttempt pk p (answered m.pk (reply_email m t address p) o p)
  answered-IsAttempt t address on at none = inr (
    reply_email m t address p,
    refl,
    (m, t, found, open_to, on, at, refl, refl, narrow m t address p),
  )
  answered-IsAttempt t address on at (some error) = (m, error, found, refl)

  deliver_to-IsAttempt :
      (t : Ticket)
      → ticket_of m p ≡ some t
      → IsAttempt pk p (deliver_to transport m t (address_of t.contact p) p)
  deliver_to-IsAttempt t on = elim (Option-cases (address_of t.contact p)) [
    | inl e ↦ rw e (inl refl)
    | inr (address, e) ↦ rw e (answered-IsAttempt t address on e _)
  ]

  deliver_on-IsAttempt : IsAttempt pk p (deliver_on transport m (ticket_of m p) p)
  deliver_on-IsAttempt = elim (Option-cases (ticket_of m p)) [
    | inl e ↦ rw e (inl refl)
    | inr (t, e) ↦ rw e (deliver_to-IsAttempt t e)
  ]

deliver_reply-IsAttempt :
    (transport : Transport) (pk : ℕ) (p : Post) → IsAttempt pk p (deliver_reply transport pk p)
unfolding deliver_reply
deliver_reply-IsAttempt transport pk p = elim (Option-cases (message_of pk p)) [
  | inl e ↦ rw e (inl refl)
  | inr (m, e) ↦ elim (Bool-cases (is_public m.visibility)) [
    | inl h ↦ rw (e, h) (deliver_on-IsAttempt transport pk p m e h)
    | inr h ↦ rw (e, h) (inl refl)
  ]
]

first-passes :
    (pk : ℕ) (ms : List Message) (m : Message)
    → first (λ (k : Message). k.pk == pk) ms ≡ some m
    → m.pk ≡ pk
first-passes pk [] m e = absurd (cc)
first-passes pk (k ∷ ks) m e = elim (Bool-cases (k.pk == pk)) [
  | inl h ↦
      let found : some k ≡ some m = rw h at e in
      let same : k ≡ m = cc found in ap (λ (j : Message). j.pk) (sym same) ∙ (==_iff k.pk pk).0 h
  | inr h ↦ first-passes pk ks m (rw h at e)
]

-- A run that goes on after a failed attempt.
IsDelivered-again :
    (pk : ℕ) (p p' q : Post)
    → (m : Message) × (error : String) × (message_of pk p ≡ some m)
      × (p' ≡ save_message m.pk (with_status failed error) p)
    → IsDelivered pk p' q
    → IsDelivered pk p q
IsDelivered-again pk p p' q (m, error, found, e) d =
    let same = first-passes pk p.messages m found in
    let e' : p' ≡ save_message pk (with_status failed error) p =
      e ∙ ap (λ k. save_message k (with_status failed error) p) same in
    elim (subst (λ r. IsDelivered pk r q) e' d) [
      | inl h ↦ inl h
      | inr (mail, h, for_them) ↦ inr (mail, h, IsFor-marked pk error p m mail found for_them)
    ]

again-IsDelivered :
    (pk : ℕ) (p later : Post) (r : Attempt × Post)
    → IsAttempt pk p r
    → IsDelivered pk r.1 later
    → IsDelivered pk p (again r later)
again-IsDelivered pk p later (over, p') h d = h
again-IsDelivered pk p later (retried, p') h d = IsDelivered-again pk p p' later h d

last-IsDelivered :
    (pk : ℕ) (p : Post) (r : Attempt × Post) → IsAttempt pk p r → IsDelivered pk p r.1
last-IsDelivered pk p (over, p') h = h
last-IsDelivered pk p (retried, p') (m, error, found, e) = inl (ap (λ r. r.outbox) e)

attempts-IsDelivered :
    (n : ℕ) (transport : ℕ → Transport) (pk : ℕ) (p : Post)
    → IsDelivered pk p (attempts n transport pk p)
unfolding attempts
attempts-IsDelivered zero transport pk p =
    last-IsDelivered pk p _ (deliver_reply-IsAttempt (transport 0) pk p)
attempts-IsDelivered (suc n) transport pk p =
    again-IsDelivered pk p _ _ (deliver_reply-IsAttempt (transport (suc n)) pk p)
      (attempts-IsDelivered n transport pk _)

-- A run of the task for any message, however its six attempts go, sends one mail or none. One
-- that is sent is for a message that is in the table and public, and goes to an e-mail address of
-- the contact of the message's ticket. Its subject line is the ticket's reference, replies go to
-- the address of that reference, and what its template is given is, in the contact's language,
-- the message's text, the portal's address, the ticket's reference and subject, and messages of
-- that ticket that are public.
pub send_ticket_reply_email-IsDelivered :
    (transport : ℕ → Transport) (pk : ℕ) (p : Post)
    → IsDelivered pk p (send_ticket_reply_email transport pk p)
unfolding send_ticket_reply_email
send_ticket_reply_email-IsDelivered transport pk p = attempts-IsDelivered max_retries transport pk p
