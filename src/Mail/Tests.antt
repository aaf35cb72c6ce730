-- ===== src/Mail/Tests.antt =====
-- A reply that is taken at the second attempt.
use Prim.Native.Char.{code}
use azm_crm.Prelude.{ℕ, none, some, ◌&&◌, [], ◌∷◌, leb, ◌==◌, if◌then◌else◌}
use azm_crm.Tickets.Model.{
  Ticket, Message, normal, opened, web_form, email, outbound, shared, pending,
}
use azm_crm.Portal.Requests
use azm_crm.Mail.{Post, Transport, send_ticket_reply_email}
use azm_crm.Mail.Delivery.{IsDelivered, send_ticket_reply_email-IsDelivered}

abbrev request : Ticket
request = record {
  pk = 9;
  reference = "AZM-2026-000009";
  organization = none;
  contact = 7;
  subject = "Printer";
  description = "";
  category = 2;
  priority = normal;
  status = opened;
  assigned_to = none;
  origin_channel = web_form;
  first_response_at = some 60;
  resolved_at = none;
  department = 3;
  branch = 4;
  created_at = 50;
  deleted_at = none;
  deleted_by = none;
}

abbrev answer : Message
answer = record {
  pk = 20;
  ticket = 9;
  author = some 11;
  direction = outbound;
  visibility = shared;
  channel = email;
  body = "We are on it.";
  delivery_status = pending;
  delivery_error = "";
  external_id = "";
  created_at = 60;
}

abbrev post : Post
post = record {
  letters = record {
    lower = λ s. s;
    is_decimal = λ c. leb 48 (code c) && leb (code c) 57;
    is_word = λ c. leb 48 (code c) && leb (code c) 122;
  };
  domain = "example.com";
  portal_base_url = "https://example.com/";
  persons = [];
  details =
      record { contact = 7; kind = Requests.email; value = "noura@example.com"; deleted_at = none }
      ∷ [];
  tickets = request ∷ [];
  messages = answer ∷ [];
  outbox = [];
}

-- Attempts are numbered downwards, from 5.
abbrev second_time : ℕ → Transport
second_time n e = if n == 5 then some "timeout" else none

send_ticket_reply_email-IsDelivered_example :
    IsDelivered 20 post (send_ticket_reply_email second_time 20 post)
send_ticket_reply_email-IsDelivered_example =
    send_ticket_reply_email-IsDelivered second_time 20 post
