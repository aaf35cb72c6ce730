-- ===== src/Intake/Inbound.antt =====
-- apps/messaging/services/inbound.py: an e-mail that comes in is filed on the ticket that it
-- belongs to, or on a new one.
pub mod Kept
pub mod Replies
use text.Mathlib.Text.{◌==◌ as str_eq}
use azm_crm.Prelude.{
  ℕ, ◌+◌, String, Option, none, some, Bool, true, false, ◌&&◌, not, ◌==◌, List, [], ◌∷◌, ◌++◌,
  first, any, keep, is_some, if◌then◌else◌, update_where,
}
use azm_crm.Core.Text.{strip, is_empty, is_space}
use azm_crm.Tickets.Model.{Ticket, Message, inbound, shared, not_applicable}
use azm_crm.Tickets.Model
use azm_crm.Tickets.Creation.{Draft}
use azm_crm.Tickets.Lifecycle
use azm_crm.Tickets.Lifecycle.{reopen_for_customer_reply, save}
use azm_crm.Chat.Starting.{take}
use azm_crm.Intake.Office.{
  Office, Person, Category, Log, MatchMethod, reply_to_token, headers, subject_token, no_match,
  create_ticket,
}
use azm_crm.Intake.Matching.{find_or_create_contact}
use azm_crm.Intake.Opening.{before_at}
use azm_crm.Intake.References.{search_plus_address, search_reference}

-- The entries of a mail, with the body's among them, and the parts that are read of them: one that is
-- missing is empty.
pub record Mail : Type 0 where
  pub entries : List (String × String)
  pub sender : String
  pub to : String
  pub in_reply_to : String
  pub references : String
  pub subject : String
  pub body : String

-- `Ticket.objects.filter(reference=...).first()`
abbrev pub by_reference : String → List Ticket → Option Ticket
by_reference reference rows =
    first (λ t. str_eq t.reference reference && not (is_some t.deleted_at)) rows

abbrev pub by_found : Option String → Office → Option Ticket
by_found none o = none
by_found (some reference) o = by_reference reference o.tickets

unfoldable pub by_reply_to_token : Mail → Office → Option Ticket
by_reply_to_token mail o = by_found (search_plus_address o.letters mail.to) o

abbrev pub push : String → List String → List String
push w ws = if is_empty w then ws else w ∷ ws

-- `text.split()`: the word that is being read, and the words after it.
unfoldable pub split_words : String → String × List String
unfolding is_space
split_words String.[] = (String.[], [])
split_words (String.◌∷◌ c s) =
    let (word, later) = split_words s in
    if is_space c then (String.[], push word later) else (String.◌∷◌ c word, later)

abbrev pub words : String → List String
words s = let (word, later) = split_words s in push word later

abbrev pub ticket_of_message : Option Message → Office → Option Ticket
ticket_of_message none o = none
ticket_of_message (some m) o = first (λ t. t.pk == m.ticket) o.tickets

-- Without an id there is no message that has one of them.
unfoldable pub by_headers : Mail → Office → Option Ticket
unfolding split_words
by_headers mail o =
    let ids = words mail.in_reply_to ++ words mail.references in
    ticket_of_message (first (λ m. any (str_eq m.external_id) ids) o.messages) o

unfoldable pub by_subject_token : Mail → Office → Option Ticket
by_subject_token mail o = by_found (search_reference o.letters mail.subject) o

abbrev pub or_rule :
    Option Ticket → MatchMethod → Option (Ticket × MatchMethod) → Option (Ticket × MatchMethod)
or_rule (some t) method later = some (t, method)
or_rule none method later = later

-- The rules, in the order of priority.
unfoldable pub match_ticket : Mail → Office → Option (Ticket × MatchMethod)
unfolding by_reply_to_token by_headers by_subject_token
match_ticket mail o =
    or_rule (by_reply_to_token mail o) reply_to_token
      (or_rule (by_headers mail o) headers (or_rule (by_subject_token mail o) subject_token none))

abbrev pub general : ℕ → ℕ → Category
general pk department = record {
  pk = pk;
  name = "General";
  department = department;
  is_active = true;
}

abbrev pub category_or_new : Option Category → ℕ → Office → Category × Office
category_or_new (some c) department o = (c, o)
category_or_new none department o =
    let c = general o.next_pk department in
    (c, record o { categories = o.categories ++ c ∷ []; next_pk = o.next_pk + 1 })

unfoldable pub default_category : ℕ → Office → Category × Office
default_category department o =
    category_or_new (first (λ c. c.department == department && c.is_active) o.categories) department
      o

abbrev pub subject_line : String → String
subject_line s = if is_empty (strip s) then "(no subject)" else strip s

abbrev pub mail_draft : Mail → Person → Category → ℕ → ℕ → Draft
mail_draft mail p category department branch = record {
  contact = p.pk;
  organization = p.organization;
  subject = take 255 (subject_line mail.subject);
  description = mail.body;
  category = category.pk;
  channel = Model.email;
  department = department;
  branch = branch;
}

abbrev pub ticket_for : Mail → ℕ → ℕ → (Option Person × Bool) × Office → Option (Ticket × Office)
ticket_for mail department branch ((none, created), o) = none
ticket_for mail department branch ((some p, created), o) =
    let (category, o') = default_category department o in
    some (create_ticket (mail_draft mail p category department branch) o')

-- `_new_ticket`; `none` stands for an exception.
unfoldable pub new_ticket : Mail → String → ℕ → ℕ → Office → Option (Ticket × Office)
unfolding default_category take
new_ticket mail sender department branch o =
    ticket_for mail department branch
      (find_or_create_contact (before_at sender) sender department branch o)

abbrev pub saved :
    ℕ → Lifecycle.Result (Ticket × List Lifecycle.Field) → Office → Option (Ticket × Office)
saved pk (Lifecycle.invalid _ _) o = none
saved pk (Lifecycle.ok (t, fields)) o =
    some (t, record o { tickets = update_where (λ r. r.pk == pk) (save fields t) o.tickets })

abbrev pub with_method :
    MatchMethod → Option (Ticket × Office) → Option (Ticket × MatchMethod × Office)
with_method method none = none
with_method method (some (t, o)) = some (t, method, o)

-- The ticket that the mail goes to, reopened if need be or new.
abbrev pub file_on :
    Mail
    → String
    → ℕ
    → ℕ
    → Option (Ticket × MatchMethod)
    → Office
    → Option (Ticket × MatchMethod × Office)
file_on mail sender department branch none o =
    with_method no_match (new_ticket mail sender department branch o)
file_on mail sender department branch (some (t, method)) o =
    with_method method (saved t.pk (reopen_for_customer_reply o.now t) o)

abbrev pub mail_message : ℕ → ℕ → String → ℕ → Message
mail_message pk ticket body now = record {
  pk = pk;
  ticket = ticket;
  author = none;
  direction = inbound;
  visibility = shared;
  channel = Model.email;
  body = body;
  delivery_status = not_applicable;
  delivery_error = "";
  external_id = "";
  created_at = now;
}

-- The database's answer to the writes of the transaction, and the text of its error: before the
-- log's own row, or at it. `complaint` is the text of any other exception, and `refuses` the error
-- of a row of the log that is saved by itself, if the database refuses it.
pub data Answer : Type 0 where
  accepted : Answer
  refused_early refused_late : String → Answer

pub record Host : Type 0 where
  pub answer : Office → Answer
  pub complaint : String
  pub refuses : Log → Option String

-- What a call comes to: the log that it returns, or the exception.
pub data Ingested : Type 0 where
  returned : Log → Ingested
  raised : String → Ingested

-- The mail without its body.
abbrev pub raw_headers_of : Mail → List (String × String)
raw_headers_of mail = keep (λ (e : String × String). not (str_eq e.0 "body")) mail.entries

abbrev pub log_row : ℕ → Mail → Option ℕ → MatchMethod → String → Log
log_row pk mail ticket method error = record {
  pk = pk;
  raw_headers = raw_headers_of mail;
  matched_ticket = ticket;
  match_method = method;
  processing_error = error;
}

abbrev pub insert_log : Log → Office → Office
insert_log log o = record o { logs = o.logs ++ log ∷ []; next_pk = o.next_pk + 1 }

abbrev pub saved_or : Option String → Log → Office → Ingested × Office
saved_or none log o = (returned log, insert_log log o)
saved_or (some error) log o = (raised error, o)

-- `log.save()` outside of a transaction, which nothing guards.
abbrev pub keep_log : Host → Log → Office → Ingested × Office
keep_log host log o = saved_or (host.refuses log) log o

abbrev pub add_message : Mail → Ticket → Office → Office
add_message mail t o = record o {
  messages = o.messages ++ mail_message o.next_pk t.pk mail.body o.now ∷ [];
  next_pk = o.next_pk + 1;
}

-- A refusal rolls the transaction back: what is kept then is the log, without a ticket.
abbrev pub conclude : Host → Mail → Answer → MatchMethod → Log × Office → Office → Ingested × Office
conclude host mail accepted method (log, done) before = (returned log, done)
conclude host mail (refused_early error) method done before =
    keep_log host (log_row before.next_pk mail none no_match error) before
conclude host mail (refused_late error) method done before =
    keep_log host (log_row before.next_pk mail none method error) before

abbrev pub record_mail :
    Host → Mail → Option (Ticket × MatchMethod × Office) → Office → Ingested × Office
record_mail host mail none before =
    keep_log host (log_row before.next_pk mail none no_match host.complaint) before
record_mail host mail (some (t, method, o)) before =
    let o₁ = add_message mail t o in
    let log = log_row o₁.next_pk mail (some t.pk) method "" in
    conclude host mail (host.answer (insert_log log o₁)) method (log, insert_log log o₁) before

abbrev pub no_sender : String
no_sender = "Inbound mail has no sender address; cannot attribute it."

unfoldable pub ingest : Host → Mail → ℕ → ℕ → Office → Ingested × Office
unfolding match_ticket new_ticket
ingest host mail department branch o =
    if is_empty (strip mail.sender)
    then keep_log host (log_row o.next_pk mail none no_match no_sender) o
    else record_mail host mail
        (file_on mail (strip mail.sender) department branch (match_ticket mail o) o) o
