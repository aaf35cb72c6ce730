-- ===== src/Chat/Tests.antt =====
-- A desk on which the laws of chat are applied: two agents and a supervisor, two visitors who
-- wait, and a conversation that is held.
mod Presences
mod Endings
mod Sweeping
mod Sockets
mod Starting
use azm_crm.Prelude.{ℕ, Option, none, some, [], ◌∷◌, List, true, false, ◌≡◌, refl, ◌<◌, arith}
use azm_crm.Tickets.Model.{Ticket, opened, normal, chat}
use azm_crm.Chat.Settings.{Settings, IsSane, base}
use azm_crm.Chat.Model.{
  Conversation, State, waiting, active, ended, User, Role, supervisor, Contact, Payload, Group,
}
use azm_crm.Chat.Model
use azm_crm.Chat.Redis.Keys.{queue}
use azm_crm.Chat.Redis.{Redis, flushall}
use azm_crm.Chat.Presence.{go_online, claim_slot}
use azm_crm.Chat.Queue
use azm_crm.Chat.World.{World}

abbrev pub base-IsSane : IsSane base
base-IsSane = record { presence = omega arith; grace = omega arith }

abbrev pub empty : Redis
empty = record { hashes = λ _. none; expiry = λ _. none; zsets = λ _. [] }

-- Agent 11 came online with room for one, and agent 12 with the default.
abbrev pub staffed : Redis
staffed = (go_online base 100 12 none (go_online base 100 11 (some 1) empty).1).1

-- Agent 11 holds a conversation.
abbrev pub busy : Redis
busy = (claim_slot base 100 11 staffed).1

-- Two visitors wait at the desk of department 3 and branch 4.
abbrev pub queued : Redis
queued = (Queue.join 110 22 3 4 (Queue.join 105 21 3 4 busy).1).1

abbrev pub user : ℕ → User
user n = record {
  pk = n;
  role = Model.agent;
  department = some 3;
  branch = some 4;
  is_active = true;
  full_name = "Amal";
}

abbrev pub conversation : ℕ → State → Option ℕ → Conversation
conversation n st holder = record {
  pk = n;
  ticket = n;
  contact = 7;
  department = 3;
  branch = 4;
  assigned_to = holder;
  state = st;
  visitor_token_hash = "abc";
  started_at = 90;
  assigned_at = none;
  ended_at = none;
  ended_by = none;
  end_reason = none;
  last_activity_at = 90;
  idle_warned_at = none;
  deleted_at = none;
}

abbrev pub ticket : ℕ → Ticket
ticket n = record {
  pk = n;
  reference = "AZM-2026-00001";
  organization = none;
  contact = 7;
  subject = "Printer";
  description = "";
  category = 2;
  priority = normal;
  status = opened;
  assigned_to = none;
  origin_channel = chat;
  first_response_at = none;
  resolved_at = none;
  department = 3;
  branch = 4;
  created_at = 90;
  deleted_at = none;
  deleted_by = none;
}

abbrev pub held : Conversation
held = conversation 20 active (some 11)

abbrev pub first_in_line : Conversation
first_in_line = conversation 21 waiting none

abbrev pub world : World
world = record {
  settings = base;
  now = 120;
  redis = queued;
  users = user 11 ∷ user 12 ∷ [];
  contacts = [];
  conversations = held ∷ first_in_line ∷ conversation 22 waiting none ∷ [];
  tickets = ticket 20 ∷ ticket 21 ∷ ticket 22 ∷ [];
  messages = [];
  observations = [];
  sequences = [];
  year = 2026;
  next_pk = 50;
  sent = [];
}
