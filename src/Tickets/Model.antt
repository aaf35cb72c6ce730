-- ===== src/Tickets/Model.antt =====
-- apps/tickets/models.py: the rows that the ticket desk keeps. The texts of a choice field are
-- constructors, a foreign key is the number of its row, and a moment is a number of seconds on
-- one clock.
use azm_crm.Prelude.{ℕ, String, Option, Bool, true, false}

pub data Priority : Type 0 where
  low normal high urgent : Priority

-- OPEN is spelled `opened`, since `open` is a reserved word.
pub data Status : Type 0 where
  new opened pending_customer resolved closed : Status

pub data Channel : Type 0 where
  web_form email chat portal : Channel

pub record Ticket : Type 0 where
  pub pk : ℕ
  pub reference : String
  pub organization : Option ℕ
  pub contact : ℕ
  pub subject : String
  pub description : String
  pub category : ℕ
  pub priority : Priority
  pub status : Status
  pub assigned_to : Option ℕ
  pub origin_channel : Channel
  pub first_response_at : Option ℕ
  pub resolved_at : Option ℕ
  pub department : ℕ
  pub branch : ℕ
  pub created_at : ℕ
  pub deleted_at : Option ℕ
  pub deleted_by : Option ℕ

-- The table ALLOWED_TRANSITIONS, row by row.
abbrev pub allowed_transitions : Status → Status → Bool
allowed_transitions new opened = true
allowed_transitions new resolved = true
allowed_transitions opened pending_customer = true
allowed_transitions opened resolved = true
allowed_transitions pending_customer opened = true
allowed_transitions pending_customer resolved = true
allowed_transitions resolved opened = true
allowed_transitions resolved closed = true
allowed_transitions closed opened = true
allowed_transitions _ _ = false

-- What a caller may ask for: a status, or any other text that a form posts.
pub data Requested : Type 0 where
  known : Status → Requested
  unknown : String → Requested

unfoldable pub can_transition_to : Ticket → Requested → Bool
can_transition_to t (known s) = allowed_transitions t.status s
can_transition_to t (unknown _) = false

pub data Direction : Type 0 where
  inbound outbound : Direction

-- PUBLIC and INTERNAL.
pub data Visibility : Type 0 where
  shared internal : Visibility

pub data DeliveryStatus : Type 0 where
  pending sent failed not_applicable : DeliveryStatus

pub record Message : Type 0 where
  pub pk : ℕ
  pub ticket : ℕ
  pub author : Option ℕ
  pub direction : Direction
  pub visibility : Visibility
  pub channel : Channel
  pub body : String
  pub delivery_status : DeliveryStatus
  pub delivery_error : String
  pub external_id : String
  pub created_at : ℕ
