-- ===== src/Chat/Lifecycle.antt =====
-- apps/chat/services/lifecycle.py: ending a conversation, handing it on, and closing a desk. The
-- caller's copy of a conversation goes in, and comes back as the call leaves it.
pub mod Ending
use azm_crm.Prelude.{
  ℕ, zero, suc, ◌+◌, String, Option, none, some, Bool, true, false, ◌&&◌, not, ◌==◌, List, [], ◌∷◌,
  ◌++◌, if◌then◌else◌, is_some, same_id, keep, map, first, length, member, or_else,
}
use azm_crm.Tickets.Model.{Ticket, known}
use azm_crm.Tickets.Model
use azm_crm.Tickets.Lifecycle
use azm_crm.Chat.Settings.{Settings}
use azm_crm.Chat.Model.{
  State, waiting, active, ended, state_eq, EndReason, visitor_disconnected, desk_closed,
  Conversation, User, takes_chats, Notice, ended_now, disconnected, reconnecting, Contact, Group,
  public_group, staff_group, agent_group, Payload, chat_ended, chat_state, chat_desk_closed,
  chat_disconnect,
}
use azm_crm.Chat.Redis.Keys.{queue, visitor}
use azm_crm.Chat.Redis.{zrange, whole}
use azm_crm.Chat.Presence.{agents_with_capacity, anyone_online, go_offline}
use azm_crm.Chat.Queue
use azm_crm.Chat.Liveness.{mark_seen}
use azm_crm.Chat.Pending
use azm_crm.Chat.Unread
use azm_crm.Chat.Assignment.{Assigned, assign, release}
use azm_crm.Chat.Messaging.{broadcast_system}
use azm_crm.Chat.World.{
  World, M, Error, out_of_fuel, Result, ok, raised, ◌>>=◌, ◌>>◌, pure, raise, gets, on_redis,
  publish, find_conversation, save_conversation, find_ticket, save_ticket,
}
use azm_crm.Tickets.Model.{Status}
use azm_crm.Chat.Serving.{connect_next_waiting, leave_queue, anyone_available, find_waiting}
use azm_crm.Chat.World.{does_not_exist}

abbrev pub queue_unless : Assigned → M Assigned
queue_unless (some agent, c) = pure (some agent, c)
queue_unless (none, c) = do
  on_redis (λ s now. Queue.join now c.pk c.department c.branch)
  pure (none, c)

unfoldable pub try_assign : Conversation → List ℕ → M Assigned
try_assign c candidates = do result ← assign c candidates; queue_unless result

abbrev pub close : EndReason → Option ℕ → ℕ → Conversation → Conversation
close reason ended_by now c = record c {
  state = ended;
  ended_at = some now;
  ended_by = ended_by;
  end_reason = some reason;
}

-- `forget(conversation.pk, [agent])`, if there is an agent.
abbrev pub forget_unread : ℕ → Option ℕ → M (Unit {0})
forget_unread conversation none = pure tt
forget_unread conversation (some agent) =
    on_redis (λ s now. Unread.forget now conversation (agent ∷ []))

-- The `try` around `apply_transition`: a refusal changes nothing.
abbrev pub save_resolved : Lifecycle.Result (Ticket × List Lifecycle.Field) → M (Unit {0})
save_resolved (Lifecycle.ok (t, fields)) = save_ticket t.pk (Lifecycle.save fields t)
save_resolved (Lifecycle.invalid _ _) = pure tt

abbrev pub resolve_found : Option Ticket → M (Unit {0})
resolve_found none = raise does_not_exist
resolve_found (some t) = do
  now ← gets (λ w. w.now)
  save_resolved (Lifecycle.apply_transition now t (known Status.resolved))

unfoldable pub resolve_ticket : Bool → ℕ → M (Unit {0})
resolve_ticket false ticket = pure tt
resolve_ticket true ticket = do
  found ← gets (λ w. find_ticket ticket w.tickets)
  resolve_found found

abbrev pub announce_reference : ℕ → Option Ticket → M (Unit {0})
announce_reference conversation none = raise does_not_exist
announce_reference conversation (some t) = do
  publish (public_group conversation) (chat_ended t.reference)
  publish (staff_group conversation) (chat_ended t.reference)

-- `_announce_ended`
unfoldable pub announce_ended : Conversation → M (Unit {0})
announce_ended c = do
  found ← gets (λ w. find_ticket c.ticket w.tickets)
  announce_reference c.pk found

-- The part of `end` that writes: the slot, the place in the queue, the badge, the row.
unfoldable pub close_row : Conversation → EndReason → Option ℕ → M Conversation
close_row c reason ended_by = do
  release c
  leave_queue c.pk c.department c.branch
  forget_unread c.pk c.assigned_to
  now ← gets (λ w. w.now)
  save_conversation c.pk (close reason ended_by now)
  pure (close reason ended_by now c)

abbrev pub end_open : Conversation → EndReason → Option ℕ → Bool → M Conversation
end_open c reason ended_by resolve = do
  done ← close_row c reason ended_by
  resolve_ticket resolve done.ticket
  broadcast_system done ended_now false
  announce_ended done
  connect_next_waiting done.department done.branch []
  pure done

-- `end`
unfoldable pub finish : Conversation → EndReason → Option ℕ → Bool → M Conversation
unfolding resolve_ticket announce_ended close_row
finish c reason ended_by resolve =
    if state_eq c.state ended then pure c else end_open c reason ended_by resolve

abbrev pub hand_back : Conversation → Conversation
hand_back c = record c { state = waiting; assigned_to = none; assigned_at = none }

abbrev pub forget_pending : ℕ → Option ℕ → M (Unit {0})
forget_pending conversation none = pure tt
forget_pending conversation (some agent) = on_redis (λ s now. Pending.forget conversation agent)

abbrev pub just : Option ℕ → List ℕ
just none = []
just (some agent) = agent ∷ []

unfoldable pub requeue : Conversation → Notice → M Conversation
requeue c reason = do
  release c
  save_conversation c.pk hand_back
  forget_unread c.pk c.assigned_to
  forget_pending c.pk c.assigned_to
  broadcast_system c reason false
  on_redis (λ s now. Queue.join now c.pk c.department c.branch)
  on_redis (λ s now. mark_seen s now c.pk visitor)
  connect_next_waiting c.department c.branch (just c.assigned_to)
  pure (hand_back c)

unfoldable pub visitor_gone : Conversation → M Conversation
visitor_gone c = do broadcast_system c disconnected true; finish c visitor_disconnected none false

unfoldable pub agent_gone : Conversation → M Conversation
agent_gone c = requeue c reconnecting

-- `_carry_from`: the name, the address and the subject that were already given.
abbrev pub carry : ℕ → Option Contact → Option Ticket → M (Unit {0})
carry token (some p) (some t) =
    publish (public_group token) (chat_desk_closed p.full_name (or_else p.email "") t.subject)
carry token none _ = raise does_not_exist
carry token (some p) none = raise does_not_exist

-- `queue.announce_desk_closed(token, carry=_carry_from(conversation))`
unfoldable pub announce_desk_closed : ℕ → Conversation → M (Unit {0})
announce_desk_closed token c = do
  person ← gets (λ w. first (λ p. p.pk == c.contact) w.contacts)
  ticket ← gets (λ w. find_ticket c.ticket w.tickets)
  carry token person ticket

abbrev pub strand : ℕ → Option Conversation → M (List Conversation)
strand token none = pure []
strand token (some c) = do
  announce_desk_closed token c
  done ← finish c desk_closed none false
  pure (done ∷ [])

unfoldable pub strand_all : List ℕ → M (List Conversation)
strand_all [] = pure []
strand_all (token ∷ tokens) = do
  row ← gets (λ w. find_waiting token w.conversations)
  one ← strand token row
  rest ← strand_all tokens
  pure (one ++ rest)

abbrev pub close_desk : ℕ → ℕ → Bool → M (List Conversation)
close_desk department branch true = pure []
close_desk department branch false = do
  tokens ← on_redis (λ s now. Queue.drain department branch)
  strand_all tokens

unfoldable pub desk_closed_if_empty : ℕ → ℕ → M (List Conversation)
unfolding announce_desk_closed strand_all
desk_closed_if_empty department branch = do
  online ← anyone_available department branch
  close_desk department branch online

unfoldable pub requeue_all : List Conversation → M (Unit {0})
requeue_all [] = pure tt
requeue_all (c ∷ cs) = do requeue c reconnecting; requeue_all cs

-- `filter(assigned_to=user, state=ACTIVE)`
abbrev pub is_held_by : ℕ → Conversation → Bool
is_held_by user c =
    same_id c.assigned_to (some user) && (state_eq c.state active && not (is_some c.deleted_at))

unfoldable pub agent_deactivated : ℕ → M (Unit {0})
unfolding requeue_all
agent_deactivated user = do
  on_redis (λ s now. go_offline user)
  publish (agent_group user) chat_disconnect
  held ← gets (λ w. keep (is_held_by user) w.conversations)
  requeue_all held
