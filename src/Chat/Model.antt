-- ===== src/Chat/Model.antt =====
-- apps/chat/models.py and what chat reads of apps/accounts/models.py. A conversation in the hands
-- of a caller is a copy of its row: it keeps what was read until it is read again.
use azm_crm.Prelude.{ℕ, String, Option, Bool, true, false}
use azm_crm.Tickets.Model.{Message}

pub data State : Type 0 where
  waiting active ended : State

pub data EndReason : Type 0 where
  resolved ended_by_agent ended_by_visitor visitor_disconnected idle_timeout desk_closed : EndReason

pub record Conversation : Type 0 where
  pub pk : ℕ
  pub ticket : ℕ
  pub contact : ℕ
  pub department : ℕ
  pub branch : ℕ
  pub assigned_to : Option ℕ
  pub state : State
  pub visitor_token_hash : String
  pub started_at : ℕ
  pub assigned_at : Option ℕ
  pub ended_at : Option ℕ
  pub ended_by : Option ℕ
  pub end_reason : Option EndReason
  pub last_activity_at : ℕ
  pub idle_warned_at : Option ℕ
  pub deleted_at : Option ℕ

abbrev pub state_eq : State → State → Bool
state_eq waiting waiting = true
state_eq active active = true
state_eq ended ended = true
state_eq _ _ = false

unfoldable pub is_open : Conversation → Bool
is_open c = elim c.state [ ended ↦ false | _ ↦ true ]

pub data Role : Type 0 where
  agent supervisor administrator : Role

pub record User : Type 0 where
  pub pk : ℕ
  pub role : Role
  pub department : Option ℕ
  pub branch : Option ℕ
  pub is_active : Bool
  pub full_name : String

pub record Observation : Type 0 where
  pub pk : ℕ
  pub conversation : ℕ
  pub observer : ℕ
  pub started_at : ℕ
  pub ended_at : Option ℕ

-- `role__in=[AGENT, SUPERVISOR]`
abbrev pub takes_chats : Role → Bool
takes_chats agent = true
takes_chats supervisor = true
takes_chats administrator = false

-- The system lines of the thread, one for each translated text.
pub data Notice : Type 0 where
  ended_now disconnected reconnecting idle_closed idle_warning : Notice
  observing departed : String → Notice

-- What a template renders: the template's name and its context.
pub data Html : Type 0 where
  message_html whisper_html : Message → ℕ → Html
  system_html : Notice → Html

-- apps/chat/services/groups.py, and the personal group of an agent.
pub data Group : Type 0 where
  public_group staff_group agent_group : ℕ → Group

pub data Party : Type 0 where
  visitor_types agent_types : Party

-- The frames that are published to a group.
pub data Payload : Type 0 where
  chat_message : Html → Payload
  chat_system : Html → Payload
  chat_typing : Party → Payload
  chat_state : ℕ → Payload
  chat_ended : String → Payload
  chat_desk_closed : String → String → String → Payload
  chat_unread : Payload
  chat_disconnect : Payload

-- An EMAIL row of apps/customers/models.py, with the name of its contact.
pub record Contact : Type 0 where
  pub pk : ℕ
  pub full_name : String
  pub email : Option String
