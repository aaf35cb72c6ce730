-- ===== src/Intake/Tests.antt =====
-- A desk that is written to.
use Prim.Native.Char.{code}
use azm_crm.Prelude.{none, some, true, ◌&&◌, [], ◌∷◌, leb, ◌≡◌, refl, arith}
use azm_crm.Tickets.Model.{Ticket, normal, resolved, web_form}
use azm_crm.Portal.Model.{arabic}
use azm_crm.Intake.Linking.{under}
use azm_crm.Intake.Linking.History.{link_all, link_all-settled}
use azm_crm.Core.Newest.{take, newest_first}
use azm_crm.Intake.Timeline.{Note, ticket, note, at, timeline_for}
use azm_crm.Intake.Timeline.Page.{timeline_for_lem}
use azm_crm.Intake.Office.{Office, Person, Letters, reply_to_token}
use azm_crm.Core.Decimal.{decimal, six_digits}
use azm_crm.Core.Decimal.Reading.{digit-code}
use azm_crm.Core.Sequence.{format}
use azm_crm.Intake.References.{reply_to_address}
use azm_crm.Intake.References.Address.{KnowsDigits}
use azm_crm.Intake.Inbound.Replies.{match_ticket-reply_to_address}
use azm_crm.Intake.Inbound.{Mail, Host, accepted, ingest, match_ticket}
use azm_crm.Intake.Inbound.Kept.{IsKept, ingest-IsKept}

abbrev letters : Letters
letters = record {
  lower = λ s. s;
  is_decimal = λ c. leb 48 (code c) && leb (code c) 57;
  is_word = λ c. leb 48 (code c) && leb (code c) 122;
}

abbrev solved : Ticket
solved = record {
  pk = 9;
  reference = "AZM-2026-000009";
  organization = none;
  contact = 7;
  subject = "Printer";
  description = "";
  category = 2;
  priority = normal;
  status = resolved;
  assigned_to = none;
  origin_channel = web_form;
  first_response_at = none;
  resolved_at = some 90;
  department = 3;
  branch = 4;
  created_at = 50;
  deleted_at = none;
  deleted_by = none;
}

abbrev office : Office
office = record {
  letters = letters;
  now = 100;
  year = 2026;
  next_pk = 20;
  sequences = [];
  persons = [];
  details = [];
  branches = record { pk = 4; is_active = true } ∷ [];
  categories = [];
  tickets = solved ∷ [];
  messages = [];
  logs = [];
}

abbrev mail : Mail
mail = record {
  entries = ("from", "noura@example.com") ∷ ("body", "It broke again.") ∷ [];
  sender = "noura@example.com";
  to = "support+AZM-2026-000009@example.com";
  in_reply_to = "";
  references = "";
  subject = "Re: Printer";
  body = "It broke again.";
}

abbrev host : Host
host = record { answer = λ o. accepted; complaint = ""; refuses = λ log. none }

ingest-IsKept_example : IsKept host mail office (ingest host mail 3 4 office)
ingest-IsKept_example = ingest-IsKept host mail 3 4 office

solved_reference : solved.reference ≡ format "AZM" 2026 9
unfolding format decimal six_digits
solved_reference = refl

solved_address : mail.to ≡ reply_to_address solved.reference "example.com"
unfolding reply_to_address
solved_address = refl

knows_digits : KnowsDigits letters
knows_digits d h = let e = digit-code d h in rw e (ground arith)

match_ticket-reply_to_address_example : match_ticket mail office ≡ some (solved, reply_to_token)
match_ticket-reply_to_address_example =
    match_ticket-reply_to_address mail solved 2026 9 "example.com" office knows_digits (omega arith)
      (omega arith) (omega arith) solved_reference refl solved_address

abbrev noura : Person
noura = record {
  pk = 7;
  organization = none;
  full_name = "Noura";
  preferred_language = arabic;
  department = 3;
  branch = 4;
}

abbrev known : Office
known = record office { persons = noura ∷ [] }

-- The contact moves from organization 30 to 31: the ticket stays with the first.
link_all-settled_example :
    (link_all ((noura, 30) ∷ (noura, 31) ∷ []) known).tickets ≡ under 30 solved ∷ []
link_all-settled_example = link_all-settled ((noura, 30) ∷ (noura, 31) ∷ []) known

abbrev call : Note
call = record {
  pk = 5;
  organization = 30;
  author = 11;
  body = "They called.";
  created_at = 60;
  deleted_at = none;
}

timeline_for_lem_example :
    timeline_for 30 none 1 (under 30 solved ∷ []) (call ∷ [])
    ≡ take 1 (newest_first at (ticket (under 30 solved) ∷ note call ∷ []))
timeline_for_lem_example = timeline_for_lem 30 none 1 (under 30 solved ∷ []) (call ∷ [])
