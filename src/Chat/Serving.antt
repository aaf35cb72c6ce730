-- ===== src/Chat/Serving.antt =====
-- apps/chat/services/lifecycle.py: who may be given a conversation, and how those who wait are
-- connected. `connect_next_waiting` loops while agents have room and visitors wait; its fuel is
-- one more than the number of those who wait.
pub mod Frame
pub mod Termination
use azm_crm.Prelude.{
  ℕ, zero, suc, ◌+◌, String, Option, none, some, Bool, true, false, ◌&&◌, not, ◌==◌, List, [], ◌∷◌,
  ◌++◌, if◌then◌else◌, is_some, same_id, keep, map, first, length, member, or_else,
}
use azm_crm.Tickets.Model.{Ticket, known}
use azm_crm.Tickets.Model
use azm_crm.Tickets.Lifecycle
use azm_crm.Chat.Settings.{Settings}
use azm_crm.Chat.Model.{
  State, waiting, active, ended, state_eq, EndReason, visitor_disconnected, desk_closed,
  Conversation, User, takes_chats, Notice, ended_now, disconnected, reconnecting, Contact, Group,
  public_group, staff_group, agent_group, Payload, chat_ended, chat_state, chat_desk_closed,
  chat_disconnect,
}
use azm_crm.Chat.Redis.Keys.{queue, visitor}
use azm_crm.Chat.Redis.{zrange, whole}
use azm_crm.Chat.Presence.{agents_with_capacity, anyone_online, go_offline}
use azm_crm.Chat.Queue
use azm_crm.Chat.Liveness.{mark_seen}
use azm_crm.Chat.Pending
use azm_crm.Chat.Unread
use azm_crm.Chat.Assignment.{Assigned, assign, release}
use azm_crm.Chat.Messaging.{broadcast_system}
use azm_crm.Chat.World.{
  World, M, Error, out_of_fuel, Result, ok, raised, ◌>>=◌, ◌>>◌, pure, raise, gets, on_redis,
  publish, find_conversation, save_conversation, find_ticket, save_ticket,
}

-- `_eligible_agent_ids`, and the same query in `candidate_agents` and `anyone_available`.
abbrev pub is_eligible : ℕ → ℕ → User → Bool
is_eligible department branch u =
    same_id u.department (some department)
    && (same_id u.branch (some branch) && (u.is_active && takes_chats u.role))

abbrev pub eligible_agent_ids : ℕ → ℕ → List User → List ℕ
eligible_agent_ids department branch users =
    map (λ (u : User). u.pk) (keep (is_eligible department branch) users)

unfoldable pub candidate_agents : ℕ → ℕ → M (List ℕ)
candidate_agents department branch = do
  ids ← gets (λ w. eligible_agent_ids department branch w.users)
  on_redis (λ s now. agents_with_capacity now ids)

unfoldable pub anyone_available : ℕ → ℕ → M Bool
anyone_available department branch = do
  ids ← gets (λ w. eligible_agent_ids department branch w.users)
  on_redis (λ s now. anyone_online now ids)

-- `enumerate(waiting, start=1)`
unfoldable pub announce_from : ℕ → List ℕ → M (Unit {0})
announce_from i [] = pure tt
announce_from i (token ∷ tokens) = do
  publish (public_group token) (chat_state i)
  announce_from (suc i) tokens

-- `queue.announce_positions`
unfoldable pub announce_positions : ℕ → ℕ → M (Unit {0})
announce_positions department branch = do
  order ← on_redis (λ s now. zrange (queue department branch) whole)
  announce_from 1 order

unfoldable pub leave_queue : ℕ → ℕ → ℕ → M (Unit {0})
leave_queue token department branch = on_redis (λ s now. Queue.leave token department branch)

-- `Conversation.objects.filter(pk=..., state=WAITING).first()`
abbrev pub find_waiting : ℕ → List Conversation → Option Conversation
find_waiting token rows =
    first (λ c. c.pk == token && (state_eq c.state waiting && not (is_some c.deleted_at))) rows

-- What one round of the loop comes to.
pub data Round : Type 0 where
  stop : Round
  skipped : Round
  connected : Conversation → Round

abbrev pub connect_with : ℕ → ℕ → ℕ → Assigned → M Round
connect_with token department branch (none, c) = pure stop
connect_with token department branch (some agent, c) = do
  leave_queue token department branch
  pure (connected c)

abbrev pub connect_head : ℕ → ℕ → ℕ → List ℕ → Option Conversation → M Round
connect_head token department branch candidates none = do
  leave_queue token department branch
  pure skipped
connect_head token department branch candidates (some c) = do
  result ← assign c candidates
  connect_with token department branch result

abbrev pub serve_peeked : ℕ → ℕ → List ℕ → Option (ℕ × Option ℕ) → M Round
serve_peeked department branch candidates none = pure stop
serve_peeked department branch candidates (some (token, score)) = do
  row ← gets (λ w. find_waiting token w.conversations)
  connect_head token department branch candidates row

abbrev pub serve_head : ℕ → ℕ → List ℕ → M Round
serve_head department branch [] = pure stop
serve_head department branch (u ∷ us) = do
  head ← on_redis (λ s now. Queue.peek department branch)
  serve_peeked department branch (u ∷ us) head

-- The body of the `while True`.
unfoldable pub round : ℕ → ℕ → List ℕ → M Round
unfolding candidate_agents leave_queue
round department branch exclude = do
  free ← candidate_agents department branch
  serve_head department branch (keep (λ u. not (member u exclude)) free)

abbrev pub go_on :
    (List Conversation → M (List Conversation)) → List Conversation → Round → M (List Conversation)
go_on again acc stop = pure acc
go_on again acc skipped = again acc
go_on again acc (connected c) = again (acc ++ c ∷ [])

unfoldable pub serve_waiting : ℕ → ℕ → ℕ → List ℕ → List Conversation → M (List Conversation)
serve_waiting zero department branch exclude acc = raise out_of_fuel
serve_waiting (suc fuel) department branch exclude acc = do
  outcome ← round department branch exclude
  go_on (serve_waiting fuel department branch exclude) acc outcome

unfoldable pub connect_next_waiting : ℕ → ℕ → List ℕ → M (List Conversation)
connect_next_waiting department branch exclude = do
  fuel ← gets (λ w. suc (length (w.redis.zsets (queue department branch))))
  result ← serve_waiting fuel department branch exclude []
  announce_positions department branch
  pure result
