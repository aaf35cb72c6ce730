-- ===== src/Intake/Office.antt =====
-- The rows that a request from outside reads and writes: apps/customers/models.py,
-- apps/accounts/models.py, apps/messaging/models.py and apps/tickets/models.py.
use Prim.Native.Char.{Char}
use azm_crm.Prelude.{ℕ, ◌+◌, String, Option, Bool, List, [], ◌∷◌, ◌++◌}
use azm_crm.Core.Sequence.{Sequence}
use azm_crm.Tickets.Model.{Ticket, Message}
use azm_crm.Tickets.Creation.{Draft, ticket_of, next_ticket_reference}
use azm_crm.Portal.Model.{Language}
use azm_crm.Portal.Requests.{Detail}

pub record Person : Type 0 where
  pub pk : ℕ
  pub organization : Option ℕ
  pub full_name : String
  pub preferred_language : Language
  pub department : ℕ
  pub branch : ℕ

pub record Branch : Type 0 where
  pub pk : ℕ
  pub is_active : Bool

pub record Category : Type 0 where
  pub pk : ℕ
  pub name : String
  pub department : ℕ
  pub is_active : Bool

pub data MatchMethod : Type 0 where
  reply_to_token headers subject_token no_match : MatchMethod

-- A row of InboundMessageLog, without the moment at which it was made.
pub record Log : Type 0 where
  pub pk : ℕ
  pub raw_headers : List (String × String)
  pub matched_ticket : Option ℕ
  pub match_method : MatchMethod
  pub processing_error : String

-- `str.lower`, and the characters that `\d` and `\w` of `re` match.
pub record Letters : Type 0 where
  pub lower : String → String
  pub is_decimal : Char → Bool
  pub is_word : Char → Bool

-- Branches are in the order of their numbers, categories by name.
pub record Office : Type 0 where
  pub letters : Letters
  pub now : ℕ
  pub year : ℕ
  pub next_pk : ℕ
  pub sequences : List Sequence
  pub persons : List Person
  pub details : List Detail
  pub branches : List Branch
  pub categories : List Category
  pub tickets : List Ticket
  pub messages : List Message
  pub logs : List Log

-- `Ticket.objects.create(...)`
unfoldable pub create_ticket : Draft → Office → Ticket × Office
create_ticket d o =
    let (reference, rows) = next_ticket_reference o.year o.sequences in
    let t = ticket_of d o.next_pk reference o.now in
    (t, record o { tickets = o.tickets ++ t ∷ []; sequences = rows; next_pk = o.next_pk + 1 })
