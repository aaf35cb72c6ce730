-- ===== src/Intake/Timeline/Page.antt =====
-- About apps/customers/services/timeline.py: the cap on what is fetched hides nothing.
use azm_crm.Prelude.{ℕ, ◌*◌, Option, List, ◌++◌, map, ◌≡◌, arith}
use azm_crm.Core.Newest.{take, newest_first}
use azm_crm.Core.Newest.Capped.{take-newest_first-capped}
use azm_crm.Tickets.Model.{Ticket}
use azm_crm.Intake.Timeline.{Note, ticket, note, at, their_tickets, their_notes, timeline_for}

-- Whatever the number of tickets and notes, the capped and merged page of `timeline_for` is the
-- first `limit` of all the organization's tickets and notes, or of one contact's tickets, sorted
-- newest first in one list.
pub timeline_for_lem :
    (organization : ℕ) (contact : Option ℕ) (limit : ℕ) (tickets : List Ticket) (notes : List Note)
    → timeline_for organization contact limit tickets notes
      ≡ take limit (
          newest_first at (
            map ticket (their_tickets organization contact tickets)
            ++ map note (their_notes organization contact notes)))
unfolding timeline_for
timeline_for_lem organization contact limit tickets notes =
    take-newest_first-capped at limit (limit * 2)
      (map ticket (their_tickets organization contact tickets))
      (map note (their_notes organization contact notes)) (omega arith)
