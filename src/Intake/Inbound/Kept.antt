-- ===== src/Intake/Inbound/Kept.antt =====
-- About apps/messaging/services/inbound.py: what becomes of a mail.
use azm_crm.Prelude.{
  ℕ, ◌+◌, String, Option, none, some, Bool, List, [], ◌∷◌, ◌++◌, ◌≡◌, refl, ◌∙◌, ap, ◌⊎◌, inl, inr,
  Bool-cases, Option-cases, length, length-append, length-update_where, first, ◌==◌, ◌&&◌,
}
use azm_crm.Core.Text.{strip, is_empty}
use azm_crm.Tickets.Model.{
  Ticket, Message, inbound, shared, known, opened, can_transition_to, allowed_transitions,
}
use azm_crm.Tickets.Lifecycle
use azm_crm.Tickets.Lifecycle.{
  reopen_for_customer_reply, apply_transition, stamp, is_finished, same_status,
}
use azm_crm.Intake.Office.{Office, Person, Log, MatchMethod, no_match, create_ticket}
use azm_crm.Portal.Requests.{Detail}
use azm_crm.Intake.Matching.{match_or_create, find_or_create_contact}
use azm_crm.Intake.Opening.{before_at}
use azm_crm.Intake.Inbound.{
  Mail, match_ticket, default_category, ticket_for, new_ticket, saved, with_method, file_on, Answer,
  accepted, refused_early, refused_late, Host, keep_log, add_message, conclude, record_mail, ingest,
  log_row, mail_message, insert_log, saved_or, raw_headers_of, no_sender, Ingested, returned,
  raised,
}

abbrev KeepsPk : Ticket → Lifecycle.Result (Ticket × List Lifecycle.Field) → Type 0
KeepsPk t (Lifecycle.ok (t', fs)) = t'.pk ≡ t.pk
KeepsPk t (Lifecycle.invalid _ _) = Unit

stamp-pk : (now : ℕ) (was : Option ℕ) (t : Ticket) → (stamp now opened was t).0.pk ≡ t.pk
stamp-pk now none t = refl
stamp-pk now (some m) t = refl

apply-pk : (now : ℕ) (t : Ticket) → KeepsPk t (apply_transition now t (known opened))
unfolding apply_transition can_transition_to
apply-pk now t = elim (Bool-cases (same_status opened t.status)) [
  | inl e ↦ rw e refl
  | inr e ↦ elim (Bool-cases (allowed_transitions t.status opened)) [
    | inl f ↦ rw (e, f) (stamp-pk now t.resolved_at t)
    | inr f ↦ rw (e, f) tt
  ]
]

reopen-pk : (now : ℕ) (t : Ticket) → KeepsPk t (reopen_for_customer_reply now t)
unfolding reopen_for_customer_reply
reopen-pk now t = elim (Bool-cases (is_finished t.status)) [
  | inl e ↦ rw e (apply-pk now t)
  | inr e ↦ rw e refl
]

-- Where a mail went: to the ticket that a rule found, with that rule's name, or to a new one.
abbrev pub Placed : Option (Ticket × MatchMethod) → Office → ℕ → MatchMethod → List Ticket → Type 0
Placed (some (t, method)) before pk used rows =
    (pk ≡ t.pk) × (used ≡ method) × (length rows ≡ length before.tickets)
Placed none before pk used rows = (used ≡ no_match) × (length rows ≡ length before.tickets + 1)

abbrev Filed :
    Option (Ticket × MatchMethod) → Office → Option (Ticket × MatchMethod × Office) → Type 0
Filed found before none = Unit
Filed found before (some (t, method, o)) =
    (o.messages ≡ before.messages)
    × (o.logs ≡ before.logs)
    × Placed found before t.pk method o.tickets

created :
    (mail : Mail) (department branch : ℕ) (before : Office) (made : (Option Person × Bool) × Office)
    → made.1.messages ≡ before.messages
    → made.1.logs ≡ before.logs
    → made.1.tickets ≡ before.tickets
    → Filed none before (with_method no_match (ticket_for mail department branch made))
unfolding create_ticket default_category
created mail department branch before ((none, c), o) m l t = tt
created mail department branch before ((some p, c), o) m l t =
    elim (Option-cases (first (λ c. c.department == department && c.is_active) o.categories)) [
      | inl e ↦ rw e (m, l, (refl, length-append o.tickets _ ∙ ap (λ ts. length ts + 1) t))
      | inr (x, e) ↦ rw e (m, l, (refl, length-append o.tickets _ ∙ ap (λ ts. length ts + 1) t))
    ]

matched :
    (mail : Mail) (department branch : ℕ) (before : Office) (value : String)
    → (found : Option Detail)
    → Filed none before (
        with_method no_match (
          ticket_for mail department branch
            (match_or_create found (before_at (strip mail.sender)) value department branch before)))
matched mail department branch before value none =
    created mail department branch before
      (match_or_create none (before_at (strip mail.sender)) value department branch before) refl
      refl refl
matched mail department branch before value (some d) =
    created mail department branch before
      (match_or_create (some d) (before_at (strip mail.sender)) value department branch before) refl
      refl refl

file_on-Filed :
    (mail : Mail) (department branch : ℕ) (found : Option (Ticket × MatchMethod)) (o : Office)
    → Filed found o (file_on mail (strip mail.sender) department branch found o)
unfolding new_ticket find_or_create_contact
file_on-Filed mail department branch none o =
    matched mail department branch o (o.letters.lower (strip (strip mail.sender))) _
file_on-Filed mail department branch (some (t, method)) o =
    reopened (reopen_for_customer_reply o.now t) (reopen-pk o.now t)
  where
    reopened :
        (r : Lifecycle.Result (Ticket × List Lifecycle.Field))
        → KeepsPk t r
        → Filed (some (t, method)) o (with_method method (saved t.pk r o))
    reopened (Lifecycle.ok (t', fs)) e =
        (refl, refl, (e, refl, length-update_where (λ (r : Ticket). r.pk == t.pk) _ o.tickets))
    reopened (Lifecycle.invalid _ _) e = tt

-- What becomes of a mail.
abbrev Unchanged : Office → Office → Type 0
Unchanged before after =
    (after.messages ≡ before.messages)
    × (after.tickets ≡ before.tickets)
    × (after.persons ≡ before.persons)
    × (after.details ≡ before.details)

abbrev Stored : Mail → Option (Ticket × MatchMethod) → Office → Log × Office → Type 0
Stored mail found before (log, after) =
    (t : ℕ) × (m : Message) × (log.matched_ticket ≡ some t)
    × Placed found before t log.match_method after.tickets
    × (after.messages ≡ before.messages ++ m ∷ [])
    × (m.ticket ≡ t)
    × (m.body ≡ mail.body)
    × (m.author ≡ none)
    × (m.direction ≡ inbound)
    × (m.visibility ≡ shared)

-- How a call ends: with a row of the log for the mail, or with the exception of the database that
-- refused such a row, which names no ticket, and then with nothing changed.
abbrev pub IsKept : Host → Mail → Office → Ingested × Office → Type 0
IsKept host mail before (returned log, after) =
    (log.raw_headers ≡ raw_headers_of mail)
    × (after.logs ≡ before.logs ++ log ∷ [])
    × (((log.matched_ticket ≡ none) × (host.refuses log ≡ none) × Unchanged before after)
        ⊎ Stored mail (match_ticket mail before) before (log, after))
IsKept host mail before (raised error, after) =
    (after ≡ before)
    × ((log : Log) × (log.raw_headers ≡ raw_headers_of mail)
        × (log.matched_ticket ≡ none)
        × (host.refuses log ≡ some error))

keep_log-IsKept :
    (host : Host) (mail : Mail) (o : Office) (pk : ℕ) (method : MatchMethod) (error : String)
    → IsKept host mail o (keep_log host (log_row pk mail none method error) o)
keep_log-IsKept host mail o pk method error =
    answered (host.refuses (log_row pk mail none method error)) refl
  where
    answered :
        (answer : Option String)
        → host.refuses (log_row pk mail none method error) ≡ answer
        → IsKept host mail o (saved_or answer (log_row pk mail none method error) o)
    answered none e = (refl, refl, inl (refl, e, (refl, refl, refl, refl)))
    answered (some why) e = (refl, (log_row pk mail none method error, refl, refl, e))

record_mail-IsKept :
    (host : Host) (mail : Mail) (o : Office) (done : Option (Ticket × MatchMethod × Office))
    → Filed (match_ticket mail o) o done
    → IsKept host mail o (record_mail host mail done o)
record_mail-IsKept host mail o none h =
    keep_log-IsKept host mail o o.next_pk no_match host.complaint
record_mail-IsKept host mail o (some (t, method, o')) h = concluded (host.answer _)
  where
    log : Log
    log = log_row (o'.next_pk + 1) mail (some t.pk) method ""

    concluded :
        (answer : Answer)
        → IsKept host mail o
            (conclude host mail answer method (log, insert_log log (add_message mail t o')) o)
    concluded accepted =
        let m = mail_message o'.next_pk t.pk mail.body o'.now in
        (
          refl,
          ap (λ (ls : List Log). ls ++ log ∷ []) h.1,
          inr (
            t.pk,
            m,
            refl,
            h.2,
            ap (λ (ms : List Message). ms ++ m ∷ []) h.0,
            refl,
            refl,
            refl,
            refl,
            refl,
          ),
        )
    concluded (refused_early error) = keep_log-IsKept host mail o o.next_pk no_match error
    concluded (refused_late error) = keep_log-IsKept host mail o o.next_pk method error

-- Whatever the mail and whatever the database answers, `ingest` either returns a log, which has
-- the mail's entries without the body and is the one row added to the logs, or raises because the
-- database refused such a row by itself, and then nothing has changed. If it returns, either no
-- ticket is named in the log, and tickets, messages, contacts and addresses are as they were; or
-- one message is added, public, inbound, without an author and with the mail's body, on the
-- ticket that the log names: if a rule finds a ticket, it is that of the first rule that does,
-- with that rule's name in the log and no ticket added, and if no rule does, one ticket is added.
pub ingest-IsKept :
    (host : Host) (mail : Mail) (department branch : ℕ) (o : Office)
    → IsKept host mail o (ingest host mail department branch o)
unfolding ingest
ingest-IsKept host mail department branch o = elim (Bool-cases (is_empty (strip mail.sender))) [
  | inl e ↦ rw e (keep_log-IsKept host mail o o.next_pk no_match no_sender)
  | inr e ↦ rw e (
      record_mail-IsKept host mail o _
        (file_on-Filed mail department branch (match_ticket mail o) o))
]
