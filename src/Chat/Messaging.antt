-- ===== src/Chat/Messaging.antt =====
-- apps/chat/services/messaging.py: store a message, then publish it to the groups that may see it.
pub mod Boundary
use azm_crm.Prelude.{
  ℕ, String, Option, none, some, Bool, true, false, List, [], ◌∷◌, ◌++◌, if◌then◌else◌, map,
  or_else, ◌+◌,
}
use azm_crm.Core.Text.{strip, is_empty}
use azm_crm.Tickets.Model.{
  Message, Direction, inbound, outbound, Visibility, shared, internal, chat, not_applicable,
}
use azm_crm.Tickets.Visibility.{public_messages_for}
use azm_crm.Chat.Model.{
  Conversation, Notice, Html, message_html, whisper_html, system_html, Group, public_group,
  staff_group, Party, Payload, chat_message, chat_system, chat_typing,
}
use azm_crm.Chat.Presence.{has_socket}
use azm_crm.Chat.Pending
use azm_crm.Chat.World.{
  World, M, ◌>>=◌, ◌>>◌, pure, gets, on_redis, publish, save_conversation, Result, ok,
}

-- `Message.objects.create(...)`
unfoldable pub create_message :
    Conversation → Option ℕ → Direction → Visibility → String → M Message
create_message c author direction visibility body w =
    let m : Message = record {
      pk = w.next_pk;
      ticket = c.ticket;
      author = author;
      direction = direction;
      visibility = visibility;
      channel = chat;
      body = body;
      delivery_status = not_applicable;
      delivery_error = "";
      external_id = "";
      created_at = w.now;
    } in
    (ok m, record w { messages = w.messages ++ m ∷ []; next_pk = w.next_pk + 1 })

abbrev pub hold_unless : Bool → Conversation → ℕ → Message → Html → M (Unit {0})
hold_unless true c agent m html = pure tt
hold_unless false c agent m html = do
  on_redis (λ s now. Pending.hold s now c.pk agent m.pk html)
  pure tt

-- `_hold_if_the_agent_is_not_listening`
unfoldable pub hold_if_away : Option ℕ → Conversation → Message → Html → M (Unit {0})
hold_if_away none c m html = pure tt
hold_if_away (some agent) c m html = do
  listening ← on_redis (λ s now. has_socket now agent)
  hold_unless listening c agent m html

abbrev pub wake : ℕ → Conversation → Conversation
wake now c = record c { last_activity_at = now; idle_warned_at = none }

abbrev pub Recorded : Type 0
Recorded = Option Message × Conversation

-- What follows the storing, by the visibility of the message.
unfoldable pub deliver : Visibility → Conversation → Message → M Recorded
unfolding hold_if_away
deliver internal c m = do
  publish (staff_group c.pk) (chat_message (whisper_html m c.pk))
  hold_if_away c.assigned_to c m (whisper_html m c.pk)
  pure (some m, c)
deliver shared c m = do
  now ← gets (λ w. w.now)
  save_conversation c.pk (wake now)
  publish (public_group c.pk) (chat_message (message_html m c.pk))
  publish (staff_group c.pk) (chat_message (message_html m c.pk))
  pure (some m, wake now c)

abbrev pub store_and_deliver :
    Conversation → Option ℕ → Direction → Visibility → String → M Recorded
store_and_deliver c author direction visibility body = do
  m ← create_message c author direction visibility body
  deliver visibility c m

-- The message, if the body was not blank, and the caller's copy of the conversation.
unfoldable pub record_and_broadcast :
    Conversation → String → Option ℕ → Direction → Visibility → M Recorded
unfolding create_message
record_and_broadcast c body author direction visibility =
    if is_empty (strip body)
    then pure (none, c)
    else store_and_deliver c author direction visibility (strip body)

unfoldable pub visitor_message : Conversation → String → M Recorded
visitor_message c body = record_and_broadcast c body none inbound shared

unfoldable pub agent_message : Conversation → ℕ → String → M Recorded
agent_message c agent body = record_and_broadcast c body (some agent) outbound shared

unfoldable pub whisper : Conversation → ℕ → String → M Recorded
whisper c supervisor body = record_and_broadcast c body (some supervisor) outbound internal

unfoldable pub broadcast_typing : Conversation → Party → M (Unit {0})
broadcast_typing c who = do
  publish (public_group c.pk) (chat_typing who)
  publish (staff_group c.pk) (chat_typing who)

unfoldable pub broadcast_system : Conversation → Notice → Bool → M (Unit {0})
broadcast_system c text true = publish (staff_group c.pk) (chat_system (system_html text))
broadcast_system c text false = do
  publish (staff_group c.pk) (chat_system (system_html text))
  publish (public_group c.pk) (chat_system (system_html text))

unfoldable pub history_for_visitor : Conversation → World → List Html
history_for_visitor c w = map (λ m. message_html m c.pk) (public_messages_for c.ticket w.messages)
