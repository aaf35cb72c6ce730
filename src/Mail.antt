-- ===== src/Mail.antt =====
-- apps/messaging/tasks.py and services/outbound.py: what is sent to customers by e-mail. Whether a
-- mail is taken is the transport's answer, with the error's text if it is not.
pub mod Delivery
mod Tests
use Prim.Native.String.{String}
use Prim.Native.String.{◌++◌ as append}
use text.Mathlib.Text.{◌==◌ as str_eq}
use azm_crm.Prelude.{
  ℕ, zero, suc, ◌+◌, Option, none, some, Bool, true, false, not, ◌&&◌, ◌||◌, List, [], ◌∷◌, ◌++◌,
  first, is_some, ◌==◌, update_where, if◌then◌else◌,
}
use azm_crm.Core.Text.{strip, is_empty}
use azm_crm.Tickets.Model.{Ticket, Message, shared, sent, failed, DeliveryStatus}
use azm_crm.Tickets.Visibility.{is_public, Context, customer_facing_context}
use azm_crm.Portal.Model.{Language, arabic, english}
use azm_crm.Portal.Requests.{Detail, is_email}
use azm_crm.Intake.Office.{Person, Letters}
use azm_crm.Intake.References.{reply_to_address}

-- What the reply's template is given besides the narrow context.
pub record Extra : Type 0 where
  pub body : String
  pub portal : String

-- The templates of the two mails, each with its context and its language.
pub data Body : Type 0 where
  reply : String → Context Extra → Body
  confirmation : String → String → String → Body

pub record Email : Type 0 where
  pub about : String
  pub to : String
  pub reply_to : String
  pub body : Body

-- The rows that the tasks read and write, and what was sent.
pub record Post : Type 0 where
  pub letters : Letters
  pub domain : String
  pub portal_base_url : String
  pub persons : List Person
  pub details : List Detail
  pub tickets : List Ticket
  pub messages : List Message
  pub outbox : List Email

abbrev pub Transport : Type 0
Transport = Email → Option String

-- `language_for_contact`, of the text that a contact's column holds.
abbrev pub supported : String → Bool
supported language = str_eq language "ar" || str_eq language "en"

unfoldable pub language_for_contact : Letters → String → String
unfolding strip
language_for_contact l recorded =
    let preferred = l.lower (strip recorded) in if supported preferred then preferred else "ar"

abbrev pub recorded_language : Option Person → String
recorded_language none = ""
recorded_language (some p) = elim p.preferred_language [ arabic ↦ "ar" | english ↦ "en" ]

abbrev pub language_of : ℕ → Post → String
language_of contact p =
    language_for_contact p.letters
      (recorded_language (first (λ (r : Person). r.pk == contact) p.persons))

-- `_portal_url`
unfoldable pub rstrip_slashes : String → String
rstrip_slashes String.[] = String.[]
rstrip_slashes (String.◌∷◌ c s) =
    let rest = rstrip_slashes s in
    if str_eq (String.◌∷◌ c String.[]) "/" && is_empty rest then String.[] else String.◌∷◌ c rest

unfoldable pub portal_url : String → Post → String
unfolding rstrip_slashes
portal_url path p = append (rstrip_slashes p.portal_base_url) path

-- `.filter(contact=..., kind=EMAIL).values_list("value").first()`
abbrev pub is_address_of : ℕ → Detail → Bool
is_address_of contact d = d.contact == contact && (is_email d.kind && not (is_some d.deleted_at))

abbrev pub value_of : Option Detail → Option String
value_of none = none
value_of (some d) = if is_empty d.value then none else some d.value

-- The address, if there is one that is not empty.
unfoldable pub address_of : ℕ → Post → Option String
address_of contact p = value_of (first (is_address_of contact) p.details)

-- `message.save(update_fields=[...])`
abbrev pub with_status : DeliveryStatus → String → Message → Message
with_status s e m = record m { delivery_status = s; delivery_error = e }

abbrev pub save_message : ℕ → (Message → Message) → Post → Post
save_message pk f p = record p {
  messages = update_where (λ (m : Message). m.pk == pk) f p.messages;
}

abbrev pub no_address : String
no_address = "Contact has no email address on file."

-- What an attempt comes to: it is over, or the task asks to be tried again.
pub data Attempt : Type 0 where
  over retried : Attempt

abbrev pub reply_email : Message → Ticket → String → Post → Email
reply_email m t address p =
    let language = language_of t.contact p in
    record {
      about = t.reference;
      to = address;
      reply_to = reply_to_address t.reference p.domain;
      body = reply language (
          customer_facing_context t p.messages
            (record { body = m.body; portal = portal_url "/portal/sign-in/" p }));
    }

abbrev pub mark_sent : Message → Message
mark_sent m = record m { delivery_status = sent }

abbrev pub answered : ℕ → Email → Option String → Post → Attempt × Post
answered pk e none p = (over, save_message pk mark_sent (record p { outbox = p.outbox ++ e ∷ [] }))
answered pk e (some error) p = (retried, save_message pk (with_status failed error) p)

abbrev pub deliver_to : Transport → Message → Ticket → Option String → Post → Attempt × Post
deliver_to transport m t none p = (over, save_message m.pk (with_status failed no_address) p)
deliver_to transport m t (some address) p =
    let e = reply_email m t address p in answered m.pk e (transport e) p

abbrev pub deliver_on : Transport → Message → Option Ticket → Post → Attempt × Post
deliver_on transport m none p = (over, p)
deliver_on transport m (some t) p = deliver_to transport m t (address_of t.contact p) p

abbrev pub deliver_found : Transport → Option Message → Post → Attempt × Post
deliver_found transport none p = (over, p)
deliver_found transport (some m) p =
    if is_public m.visibility
    then deliver_on transport m (first (λ (t : Ticket). t.pk == m.ticket) p.tickets) p
    else (over, p)

-- `_deliver_reply`
unfoldable pub deliver_reply : Transport → ℕ → Post → Attempt × Post
unfolding address_of customer_facing_context language_for_contact portal_url reply_to_address
deliver_reply transport message_id p =
    deliver_found transport (first (λ (m : Message). m.pk == message_id) p.messages) p

abbrev pub max_retries : ℕ
max_retries = 5

abbrev pub again : Attempt × Post → Post → Post
again (over, p) later = p
again (retried, p) later = later

-- The attempts of the task, each with the transport as it is then: the first, and as many more.
unfoldable pub attempts : ℕ → (ℕ → Transport) → ℕ → Post → Post
unfolding deliver_reply
attempts zero transport message_id p = (deliver_reply (transport 0) message_id p).1
attempts (suc n) transport message_id p =
    let r = deliver_reply (transport (suc n)) message_id p in
    again r (attempts n transport message_id r.1)

-- `send_ticket_reply_email`
unfoldable pub send_ticket_reply_email : (ℕ → Transport) → ℕ → Post → Post
unfolding attempts
send_ticket_reply_email transport message_id p = attempts max_retries transport message_id p

-- `send_confirmation_email`, one attempt.
abbrev pub confirmation_email : String → String → String → Post → Email
confirmation_email reference language address p = record {
  about = reference;
  to = address;
  reply_to = reply_to_address reference p.domain;
  body = confirmation language reference (portal_url "/portal/register/" p);
}

abbrev pub confirmed : Email → Option String → Post → Attempt × Post
confirmed e none p = (over, record p { outbox = p.outbox ++ e ∷ [] })
confirmed e (some error) p = (retried, p)

abbrev pub confirm_to : Transport → String → String → Option String → Post → Attempt × Post
confirm_to transport reference language none p = (over, p)
confirm_to transport reference language (some address) p =
    let e = confirmation_email reference language address p in confirmed e (transport e) p

unfoldable pub send_confirmation_email : Transport → ℕ → String → String → Post → Attempt × Post
unfolding address_of portal_url reply_to_address
send_confirmation_email transport contact reference language p =
    confirm_to transport reference language (address_of contact p) p
