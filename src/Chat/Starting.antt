-- ===== src/Chat/Starting.antt =====
-- `start` of apps/chat/services/lifecycle.py: the ticket, the conversation and the visitor's token
-- are made together. The rows of conversations stand newest first, as the model orders them.
pub mod Handshake
use Prim.Native.String.{String}
use azm_crm.Prelude.{ℕ, zero, suc, ◌+◌, Option, none, some, List, [], ◌∷◌, ◌++◌, if◌then◌else◌}
use azm_crm.Core.Text.{is_empty}
use azm_crm.Tickets.Model.{Ticket, chat}
use azm_crm.Tickets.Creation.{Draft, ticket_of, next_ticket_reference}
use azm_crm.Chat.Model.{Conversation, waiting}
use azm_crm.Chat.Redis.Keys.{visitor}
use azm_crm.Chat.Liveness.{mark_seen}
use azm_crm.Chat.Tokens.{Signer, issue, fingerprint}
use azm_crm.Chat.World.{World, M, Result, ok, ◌>>=◌, ◌>>◌, pure, gets, on_redis, save_conversation}

-- `text[:n]`
unfoldable pub take : ℕ → String → String
take n String.[] = String.[]
take zero (String.◌∷◌ c s) = String.[]
take (suc n) (String.◌∷◌ c s) = String.◌∷◌ c (take n s)

-- `Ticket.objects.create(...)`
unfoldable pub create_ticket : Draft → M Ticket
create_ticket d w =
    let (reference, rows) = next_ticket_reference w.year w.sequences in
    let t = ticket_of d w.next_pk reference w.now in
    (ok t, record w { tickets = w.tickets ++ t ∷ []; sequences = rows; next_pk = w.next_pk + 1 })

abbrev pub new_conversation : ℕ → Draft → ℕ → ℕ → Conversation
new_conversation pk d ticket now = record {
  pk = pk;
  ticket = ticket;
  contact = d.contact;
  department = d.department;
  branch = d.branch;
  assigned_to = none;
  state = waiting;
  visitor_token_hash = "";
  started_at = now;
  assigned_at = none;
  ended_at = none;
  ended_by = none;
  end_reason = none;
  last_activity_at = now;
  idle_warned_at = none;
  deleted_at = none;
}

-- `Conversation.objects.create(...)`
unfoldable pub create_conversation : Draft → Ticket → M Conversation
create_conversation d t w =
    let c = new_conversation w.next_pk d t.pk w.now in
    (ok c, record w { conversations = c ∷ w.conversations; next_pk = w.next_pk + 1 })

abbrev pub with_hash : String → Conversation → Conversation
with_hash hash c = record c { visitor_token_hash = hash }

-- `subject[:255] or _("Live chat")`
abbrev pub subject_or : String → String → String
subject_or label subject = let cut = take 255 subject in if is_empty cut then label else cut

-- What a chat is started with: the contact and their organization, the desk, the category and the
-- subject. `label` is the translated text that stands for an empty one.
abbrev pub draft : String → ℕ → Option ℕ → ℕ → ℕ → ℕ → String → Draft
draft label contact organization department branch category subject = record {
  contact = contact;
  organization = organization;
  subject = subject_or label subject;
  description = "";
  category = category;
  channel = chat;
  department = department;
  branch = branch;
}

unfoldable pub start : Signer → Draft → M (Conversation × String)
unfolding create_ticket create_conversation take
start k d = do
  t ← create_ticket d
  c ← create_conversation d t
  now ← gets (λ w. w.now)
  let token = issue k now c.pk
  save_conversation c.pk (with_hash (fingerprint k token))
  on_redis (λ s now. mark_seen s now c.pk visitor)
  pure (with_hash (fingerprint k token) c, token)
