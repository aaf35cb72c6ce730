-- ===== src/Chat/Sockets.antt =====
-- apps/chat/consumers/base.py: what the three sockets share. The channel layer keeps a socket's
-- groups, and hands it the frames that are published to them.
pub mod Wire
pub mod Limiter
pub mod Visitor
pub mod Agent
pub mod Supervisor
pub mod Clean
pub mod System
use azm_crm.Prelude.{
  ℕ, String, Option, none, some, Bool, true, false, not, ◌&&◌, ◌==◌, List, [], ◌∷◌, ◌++◌, keep,
}
use azm_crm.Chat.Model.{
  State, Html, Party, Group, public_group, staff_group, agent_group, Payload, chat_message,
  chat_system, chat_typing, chat_state, chat_ended, chat_desk_closed, chat_unread, chat_disconnect,
}

-- The events that a socket is sent as JSON.
pub data Event : Type 0 where
  typing : Party → Event
  unread : Event
  state_is : State → Event
  waiting_at : ℕ → Event
  ended : String → Event
  desk_closed : String → String → String → Event
  assigned : ℕ → Event
  throttled refused offline : Event
  offline_refused : ℕ → Event

-- What is written to the other end: rendered HTML, an event, or the closing of the socket.
pub data Out : Type 0 where
  html : Html → Out
  event : Event → Out
  closing : Out

-- The handlers of what is published to a group.
unfoldable pub forward : Payload → Out
forward (chat_message h) = html h
forward (chat_system h) = html h
forward (chat_typing who) = event (typing who)
forward (chat_state position) = event (waiting_at position)
forward (chat_ended reference) = event (ended reference)
forward (chat_desk_closed name email subject) = event (desk_closed name email subject)
forward chat_unread = event unread
forward chat_disconnect = closing

-- One end of a socket: the groups that it has joined, and what it was sent, oldest first.
pub record Line : Type 0 where
  pub groups : List Group
  pub out : List Out

abbrev pub group_eq : Group → Group → Bool
group_eq (public_group a) (public_group b) = a == b
group_eq (staff_group a) (staff_group b) = a == b
group_eq (agent_group a) (agent_group b) = a == b
group_eq _ _ = false

-- `group_add` and `group_discard`
abbrev pub group_add : Group → Line → Line
group_add g l = record l { groups = l.groups ++ g ∷ [] }

abbrev pub group_discard : Group → Line → Line
group_discard g l = record l { groups = keep (λ h. not (group_eq h g)) l.groups }

abbrev pub send : Out → Line → Line
send o l = record l { out = l.out ++ o ∷ [] }

abbrev pub send_all : List Out → Line → Line
send_all os l = record l { out = l.out ++ os }
