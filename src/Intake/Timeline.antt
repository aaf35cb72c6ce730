-- ===== src/Intake/Timeline.antt =====
-- apps/customers/services/timeline.py: what happened with an organization, newest first.
pub mod Page
use azm_crm.Prelude.{
  ℕ, ◌*◌, String, Option, none, some, Bool, true, ◌&&◌, not, ◌==◌, List, [], ◌∷◌, ◌++◌, map, keep,
  is_some, same_id,
}
use azm_crm.Core.Newest.{take, newest_first}
use azm_crm.Tickets.Model.{Ticket}

pub record Note : Type 0 where
  pub pk : ℕ
  pub organization : ℕ
  pub author : ℕ
  pub body : String
  pub created_at : ℕ
  pub deleted_at : Option ℕ

-- An `Entry`, whose kind is the constructor.
pub data Entry : Type 0 where
  ticket : Ticket → Entry
  note : Note → Entry

abbrev pub at : Entry → ℕ
at (ticket t) = t.created_at
at (note n) = n.created_at

abbrev pub page_size : ℕ
page_size = 25

-- One person's, or anybody's.
abbrev pub is_of : Option ℕ → Ticket → Bool
is_of none t = true
is_of (some contact) t = t.contact == contact

abbrev pub their_tickets : ℕ → Option ℕ → List Ticket → List Ticket
their_tickets organization contact rows =
    keep
      (λ t.
        same_id t.organization (some organization)
        && (not (is_some t.deleted_at) && is_of contact t))
      rows

-- With one person's tickets there are no notes.
abbrev pub their_notes : ℕ → Option ℕ → List Note → List Note
their_notes organization none rows =
    keep (λ n. n.organization == organization && not (is_some n.deleted_at)) rows
their_notes organization (some contact) rows = []

abbrev pub newest : ℕ → List Entry → List Entry
newest fetch es = take fetch (newest_first at es)

-- `timeline_for`
unfoldable pub timeline_for : ℕ → Option ℕ → ℕ → List Ticket → List Note → List Entry
unfolding newest_first
timeline_for organization contact limit tickets notes =
    let fetch = limit * 2 in
    newest limit (
      newest fetch (map ticket (their_tickets organization contact tickets))
      ++ newest fetch (map note (their_notes organization contact notes)))
