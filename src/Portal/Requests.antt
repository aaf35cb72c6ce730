-- ===== src/Portal/Requests.antt =====
-- apps/portal/services/tickets.py: the requests that a signed-in customer may read and answer.
pub mod Own
use azm_crm.Prelude.{
  ℕ, ◌+◌, String, Option, none, some, Bool, true, false, ◌&&◌, not, List, [], ◌∷◌, ◌++◌,
  if◌then◌else◌, ◌==◌, leb, is_some, first, keep, map, member, update_where,
}
use text.Mathlib.Text.{◌==◌ as str_eq}
use azm_crm.Tickets.Model.{Ticket, Message, inbound, shared, portal, not_applicable}
use azm_crm.Tickets.Lifecycle
use azm_crm.Tickets.Lifecycle.{reopen_for_customer_reply, save}
use azm_crm.Tickets.Visibility.{public_messages_for}
use azm_crm.Portal.Model.{Account}

pub data Kind : Type 0 where
  email phone : Kind

abbrev pub is_email : Kind → Bool
is_email email = true
is_email phone = false

-- A row of apps/customers/models.py, `ContactDetail`.
pub record Detail : Type 0 where
  pub contact : ℕ
  pub kind : Kind
  pub value : String
  pub deleted_at : Option ℕ

pub record Desk : Type 0 where
  pub now : ℕ
  pub next_pk : ℕ
  pub details : List Detail
  pub tickets : List Ticket
  pub messages : List Message

abbrev pub carries : Account → Detail → Bool
carries a d = is_email d.kind && (str_eq d.value a.email && not (is_some d.deleted_at))

unfoldable pub contact_ids_for : Account → Desk → List ℕ
contact_ids_for a d = map (λ (r : Detail). r.contact) (keep (carries a) d.details)

abbrev pub is_theirs : List ℕ → Ticket → Bool
is_theirs ids t = member t.contact ids && not (is_some t.deleted_at)

abbrev pub place_newest : Ticket → List Ticket → List Ticket
place_newest t [] = t ∷ []
place_newest t (u ∷ us) =
    let rest = u ∷ place_newest t us in if leb u.created_at t.created_at then t ∷ u ∷ us else rest

-- `order_by("-created_at")`
unfoldable pub newest_first : List Ticket → List Ticket
newest_first [] = []
newest_first (t ∷ ts) = place_newest t (newest_first ts)

unfoldable pub requests_for : Account → Desk → List Ticket
unfolding newest_first contact_ids_for
requests_for a d = newest_first (keep (is_theirs (contact_ids_for a d)) d.tickets)

unfoldable pub request_for : Account → String → Desk → Option Ticket
unfolding requests_for
request_for a reference d = first (λ t. str_eq t.reference reference) (requests_for a d)

unfoldable pub conversation_for : Ticket → Desk → List Message
conversation_for t d = public_messages_for t.pk d.messages

-- The message, `None` for a reference that is not theirs, or the exception of the lifecycle.
pub data Reply : Type 0 where
  replied : Message → Reply
  not_theirs refused : Reply

abbrev pub reply_message : ℕ → String → Desk → Message
reply_message ticket body d = record {
  pk = d.next_pk;
  ticket = ticket;
  author = none;
  direction = inbound;
  visibility = shared;
  channel = portal;
  body = body;
  delivery_status = not_applicable;
  delivery_error = "";
  external_id = "";
  created_at = d.now;
}

abbrev pub record_reply :
    Ticket → String → Lifecycle.Result (Ticket × List Lifecycle.Field) → Desk → Reply × Desk
record_reply t body (Lifecycle.invalid _ _) d = (refused, d)
record_reply t body (Lifecycle.ok (t', fields)) d =
    let m = reply_message t.pk body d in
    (
      replied m,
      record d {
        tickets = update_where (λ r. r.pk == t.pk) (save fields t') d.tickets;
        messages = d.messages ++ m ∷ [];
        next_pk = d.next_pk + 1;
      },
    )

abbrev pub reply_on : Option Ticket → String → Desk → Reply × Desk
reply_on none body d = (not_theirs, d)
reply_on (some t) body d = record_reply t body (reopen_for_customer_reply d.now t) d

unfoldable pub reply_to : Account → String → String → Desk → Reply × Desk
unfolding request_for
reply_to a reference body d = reply_on (request_for a reference d) body d
