-- ===== src/Chat/Transcript.antt =====
-- apps/chat/services/transcript.py: moving a conversation and its messages to another ticket. The
-- two translated notes are arguments, since a catalogue of texts makes them.
pub mod Moves
use azm_crm.Prelude.{
  ℕ, ◌+◌, String, Option, none, some, Bool, true, false, ◌&&◌, ◌||◌, not, List, [], ◌∷◌,
  if◌then◌else◌, is_some, keep, length, ◌==◌, any, update_where,
}
use Prim.Native.String.{◌++◌ as append}
use azm_crm.Core.Text.{strip, is_empty}
use azm_crm.Tickets.Model.{Ticket, Status, resolved, closed, Message}
use azm_crm.Chat.Model.{Conversation, State, ended, state_eq}
use azm_crm.Chat.World.{World, find_ticket}

-- The ticket, `NotAttachable`, or the row that a foreign key was to name.
pub data Moved : Type 0 where
  moved : Ticket → Moved
  not_attachable no_placeholder : Moved

abbrev pub is_settled : Status → Bool
is_settled resolved = true
is_settled closed = true
is_settled _ = false

-- `filter(ticket=ticket).exclude(pk=...).exclude(state=ENDED)`
abbrev pub is_rival : ℕ → ℕ → Conversation → Bool
is_rival pk ticket c =
    c.ticket == ticket
    && (not (c.pk == pk) && (not (state_eq c.state ended) && not (is_some c.deleted_at)))

unfoldable pub can_attach_to : Conversation → Ticket → World → Bool
can_attach_to c t w =
    if not (t.contact == c.contact)
    then false
    else if is_settled t.status
    then false
    else not (any (is_rival c.pk t.pk) w.conversations)

-- `_append_note`
unfoldable pub append_note : String → String → String
append_note description note =
    if is_empty description then note else strip (append description (append "\n\n" note))

abbrev pub is_on : ℕ → Message → Bool
is_on ticket m = m.ticket == ticket

-- `Message.objects.filter(ticket=placeholder).update(ticket=target)`, and what it counts.
unfoldable pub move_messages : ℕ → ℕ → List Message → List Message
move_messages from to rows = update_where (is_on from) (λ m. record m { ticket = to }) rows

abbrev describe : String → Ticket → Ticket
describe text t = record t { description = text }

abbrev retire : String → ℕ → ℕ → Ticket → Ticket
retire text now actor t = record t {
  description = text;
  deleted_at = some now;
  deleted_by = some actor;
}

abbrev save_row : ℕ → (Ticket → Ticket) → World → World
save_row pk f w = record w { tickets = update_where (λ t. t.pk == pk) f w.tickets }

module _ (attached_note : String → ℕ → String) (moved_note : String → String) where
  -- The writes, in the order of the source.
  unfoldable pub re_point : Conversation → Ticket → Ticket → ℕ → World → Moved × World
  unfolding append_note move_messages
  re_point c placeholder target actor w =
      let count = length (keep (is_on placeholder.pk) w.messages) in
      let text = append_note target.description (attached_note placeholder.reference count) in
      let farewell = append_note placeholder.description (moved_note target.reference) in
      let w' : World = record w {
        messages = move_messages placeholder.pk target.pk w.messages;
        conversations =
            update_where (λ r. r.pk == c.pk) (λ r. record r { ticket = target.pk }) w.conversations;
      } in
      (
        moved (describe text target),
        save_row placeholder.pk (retire farewell w.now actor)
            (save_row target.pk (describe text) w'),
      )

  abbrev pub move_from : Conversation → Option Ticket → Ticket → ℕ → World → Moved × World
  move_from c none target actor w = (no_placeholder, w)
  move_from c (some placeholder) target actor w =
      if placeholder.pk == target.pk
      then (moved target, w)
      else if not (can_attach_to c target w)
      then (not_attachable, w)
      else re_point c placeholder target actor w

  unfoldable pub move_to : Conversation → Ticket → ℕ → World → Moved × World
  unfolding can_attach_to re_point
  move_to c target actor w = move_from c (find_ticket c.ticket w.tickets) target actor w
