-- ===== src/Intake/Inbound/Replies.antt =====
-- About apps/messaging/services/inbound.py and apps/messaging/tasks.py: an answer to a mail comes
-- back to the ticket that the mail was about.
use azm_crm.Prelude.{ℕ, ◌<◌, ◌≤◌, String, some, ◌≡◌}
use azm_crm.Core.Sequence.{format}
use azm_crm.Tickets.Model.{Ticket}
use azm_crm.Intake.Office.{Office, reply_to_token}
use azm_crm.Intake.References.{reply_to_address, search_plus_address}
use azm_crm.Intake.References.Address.{KnowsDigits, search_plus_address-reply_to_address}
use azm_crm.Intake.Inbound.{Mail, by_reference, by_reply_to_token, match_ticket}

-- With digits that are read as digits, a ticket whose reference was formatted from a year of four
-- digits and a number of at most six, and which is the one that a lookup of its reference finds:
-- a mail to the address that `_reply_to_address` gives for the reference is matched to that
-- ticket by the rule of the reply-to token, whatever its other parts and the domain.
pub match_ticket-reply_to_address :
    (mail : Mail) (t : Ticket) (y v : ℕ) (domain : String) (o : Office)
    → KnowsDigits o.letters
    → 1000 ≤ y
    → y < 10000
    → v < 1000000
    → t.reference ≡ format "AZM" y v
    → by_reference t.reference o.tickets ≡ some t
    → mail.to ≡ reply_to_address t.reference domain
    → match_ticket mail o ≡ some (t, reply_to_token)
unfolding match_ticket by_reply_to_token
match_ticket-reply_to_address mail t y v domain o knows a b c written found to =
    let named : search_plus_address o.letters (reply_to_address t.reference domain)
        ≡ some t.reference =
      rw written (search_plus_address-reply_to_address o.letters y v domain knows a b c) in
    rw (to, named, found)
