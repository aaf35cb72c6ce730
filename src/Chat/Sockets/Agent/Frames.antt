-- ===== src/Chat/Sockets/Agent/Frames.antt =====
-- The frames that an agent's socket receives (apps/chat/consumers/agent.py, `receive` and the
-- methods that it calls).
use azm_crm.Prelude.{
  ℕ, zero, suc, String, Option, none, some, Bool, true, false, ◌&&◌, not, ◌==◌, List, [],
  if◌then◌else◌, map, keep, is_some, same_id, first, length,
}
use azm_crm.Chat.Model.{
  Conversation, User, takes_chats, agent_types, resolved, ended_by_agent, EndReason,
}
use azm_crm.Chat.Redis.Keys.{unread}
use azm_crm.Chat.Redis.{hgetall}
use azm_crm.Chat.Presence.{go_online, go_offline, heartbeat, anyone_online}
use azm_crm.Chat.Unread
use azm_crm.Chat.Messaging.{agent_message, broadcast_typing}
use azm_crm.Chat.Lifecycle.{finish, desk_closed_if_empty}
use azm_crm.Chat.World.{World, M, ◌>>=◌, ◌>>◌, pure, raise, gets, on_redis, bad_value}
use azm_crm.Chat.Sockets.Wire.{
  Json, null, str, Fields, Wire, Wanted, unreadable, negative, row, parse, get, is_text, truthy,
  body_text,
}
use azm_crm.Chat.Sockets.Limiter.{Limiter, allow}
use azm_crm.Chat.Sockets.{event, throttled, offline, offline_refused, send}
use azm_crm.Chat.Sockets.Agent.{Agent, held_ids, still_here}

-- `Conversation.objects.for_user(user).filter(pk=...).first()`
abbrev pub is_scoped : User → ℕ → Conversation → Bool
is_scoped user pk c =
    c.pk == pk
    && (same_id (some c.department) user.department
        && (same_id (some c.branch) user.branch && not (is_some c.deleted_at)))

unfoldable pub find_scoped : User → ℕ → World → Option Conversation
find_scoped user pk w = first (is_scoped user pk) w.conversations

abbrev pub find_wanted : User → Wanted → M (Option Conversation)
find_wanted user unreadable = raise bad_value
find_wanted user negative = pure none
find_wanted user (row pk) = gets (find_scoped user pk)

-- `_conversation_for`
unfoldable pub conversation_for : Wire → User → Json → M (Option Conversation)
unfolding find_scoped
conversation_for wire user null = pure none
conversation_for wire user v = find_wanted user (wire.to_int v)

abbrev pub reply_in : Wire → Agent → Json → Option Conversation → M Agent
reply_in wire a text none = pure a
reply_in wire a text (some c) = do
  body ← body_text wire text
  agent_message c a.user.pk body
  pure a

-- `_reply`
unfoldable pub reply : Wire → Json → Json → Agent → M Agent
unfolding conversation_for
reply wire conversation text a = do
  found ← conversation_for wire a.user conversation
  reply_in wire a text found

abbrev pub typing_in : Agent → Option Conversation → M Agent
typing_in a none = pure a
typing_in a (some c) = do broadcast_typing c agent_types; pure a

-- `_typing`
unfoldable pub typing : Wire → Json → Agent → M Agent
unfolding conversation_for
typing wire conversation a = do found ← conversation_for wire a.user conversation; typing_in a found

-- `_heartbeat`
abbrev pub beat : Agent → M Agent
beat a = do on_redis (λ s now. heartbeat s now a.user.pk); pure a

-- `_go_online`
abbrev pub come_online : Agent → M Agent
come_online a = do on_redis (λ s now. go_online s now a.user.pk (some s.default_capacity)); pure a

-- The query of `desk_closed_if_empty` for somebody who lacks a department or a branch: the rows
-- that lack it too. If nobody of those is online, the name of the queue cannot be made.
abbrev pub is_colleague : User → User → Bool
is_colleague user u =
    same_id u.department user.department
    && (same_id u.branch user.branch && (u.is_active && takes_chats u.role))

abbrev pub unless_online : Bool → M (List Conversation)
unless_online true = pure []
unless_online false = raise bad_value

unfoldable pub close_odd_desk : User → M (List Conversation)
close_odd_desk user = do
  ids ← gets (λ w. map (λ (u : User). u.pk) (keep (is_colleague user) w.users))
  online ← on_redis (λ s now. anyone_online now ids)
  unless_online online

abbrev pub close_desk_of : User → Option ℕ → Option ℕ → M (List Conversation)
close_desk_of user (some department) (some branch) = desk_closed_if_empty department branch
close_desk_of user none branch = close_odd_desk user
close_desk_of user (some department) none = close_odd_desk user

-- `_go_offline`
unfoldable pub leave_desk : User → M (Unit {0})
unfolding close_odd_desk
leave_desk user = do
  on_redis (λ s now. go_offline user.pk)
  close_desk_of user user.department user.branch
  pure tt

abbrev pub answer_offline : Agent → ℕ → M Agent
answer_offline a zero = do leave_desk a.user; pure (record a { line = send (event offline) a.line })
answer_offline a (suc n) = pure (record a { line = send (event (offline_refused (suc n))) a.line })

-- `_offline_requested`
unfoldable pub offline_requested : Agent → M Agent
unfolding leave_desk
offline_requested a = do
  still_open ← gets (λ w. length (held_ids a.user.pk w))
  answer_offline a still_open

abbrev pub clear_wanted : ℕ → Wanted → M (Unit {0})
clear_wanted user unreadable = do on_redis (λ s now. hgetall now (unread user)); raise bad_value
clear_wanted user negative = on_redis (λ s now. Unread.clear_nothing now user)
clear_wanted user (row pk) = on_redis (λ s now. Unread.clear now user pk)

-- `_focus`
unfoldable pub focus : Wire → Json → Agent → M Agent
focus wire null a = pure a
focus wire v a = do clear_wanted a.user.pk (wire.to_int v); pure a

abbrev pub end_reason : Bool → EndReason
end_reason resolve = if resolve then resolved else ended_by_agent

abbrev pub close_found : Agent → Bool → Option Conversation → M Agent
close_found a resolve none = pure a
close_found a resolve (some c) = do finish c (end_reason resolve) (some a.user.pk) resolve; pure a

-- `_close_conversation`
unfoldable pub close_conversation : Wire → Json → Bool → Agent → M Agent
unfolding conversation_for
close_conversation wire conversation resolve a = do
  found ← conversation_for wire a.user conversation
  close_found a resolve found

unfoldable pub handle : Wire → Fields → Agent → M Agent
unfolding reply typing offline_requested focus close_conversation
handle wire payload a =
    let kind = get "type" null payload in
    let conversation = get "conversation" null payload in
    if is_text "message" kind
    then reply wire conversation (get "text" (str "") payload) a
    else if is_text "typing" kind
    then typing wire conversation a
    else if is_text "heartbeat" kind
    then beat a
    else if is_text "online" kind
    then come_online a
    else if is_text "offline" kind
    then offline_requested a
    else if is_text "focus" kind
    then focus wire conversation a
    else if is_text "close" kind
    then close_conversation wire conversation (truthy wire (get "resolve" null payload)) a
    else pure a

abbrev pub handle_if : Wire → Fields → Agent → Bool × Limiter → M Agent
handle_if wire payload a (false, l) =
    pure (record a { limiter = l; line = send (event throttled) a.line })
handle_if wire payload a (true, l) = do
  still_here a.user.pk
  handle wire payload (record a { limiter = l })

unfoldable pub receive : Wire → ℕ → Option String → Agent → M Agent
unfolding handle
receive wire at frame a = handle_if wire (parse wire frame) a (allow at a.limiter)
