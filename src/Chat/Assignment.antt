-- ===== src/Chat/Assignment.antt =====
-- apps/chat/services/assignment.py: give a conversation to the first agent with room. The slot is
-- claimed before the row is written, and given back when the write is not made.
pub mod Outcome
use azm_crm.Prelude.{
  ℕ, Option, none, some, Bool, true, false, List, [], ◌∷◌, if◌then◌else◌, is_some,
}
use azm_crm.Chat.Model.{Conversation, active}
use azm_crm.Chat.Redis.Keys.{agent}
use azm_crm.Chat.Presence.{has_capacity, claim_slot, release_slot}
use azm_crm.Chat.Liveness.{mark_seen}
use azm_crm.Chat.World.{
  World, M, ◌>>=◌, ◌>>◌, pure, raise, gets, on_redis, find_conversation, save_conversation,
  does_not_exist,
}

-- The agent, if there was one, and the caller's copy of the conversation.
abbrev pub Assigned : Type 0
Assigned = Option ℕ × Conversation

unfoldable pub give_back : ℕ → M (Unit {0})
give_back user = on_redis (λ s now. release_slot s now user)

abbrev pub take_row : ℕ → ℕ → Conversation → Conversation
take_row user now row = record row {
  assigned_to = some user;
  state = active;
  assigned_at = some now;
}

abbrev refreshed : Conversation → Option Conversation → Conversation
refreshed c none = c
refreshed c (some row) = row

-- Somebody else has the conversation.
abbrev pub refuse : ℕ → Conversation → M Assigned
refuse user c = do give_back user; pure (none, c)

abbrev pub write_row : ℕ → Conversation → M Assigned
write_row user c = do
  now ← gets (λ w. w.now)
  save_conversation c.pk (take_row user now)
  on_redis (λ s now. mark_seen s now c.pk agent)
  row ← gets (λ w. find_conversation c.pk w.conversations)
  pure (some user, refreshed c row)

-- The body of the transaction, on the locked row.
unfoldable pub attach : ℕ → Conversation → Option Conversation → M Assigned
attach user c none = do give_back user; raise does_not_exist
attach user c (some locked) = if is_some locked.assigned_to then refuse user c else write_row user c

-- `select_for_update().get(pk=...)`
abbrev pub take : Conversation → ℕ → M Assigned
take c user = do locked ← gets (λ w. find_conversation c.pk w.conversations); attach user c locked

abbrev pub claim_and_take : Conversation → ℕ → M Assigned → M Assigned
claim_and_take c user rest = do
  claimed ← on_redis (λ s now. claim_slot s now user)
  if claimed then take c user else rest

unfoldable pub assign : Conversation → List ℕ → M Assigned
assign c [] = pure (none, c)
assign c (user ∷ users) =
    let rest = assign c users in
    do
      room ← on_redis (λ s now. has_capacity now user)
      if room then claim_and_take c user rest else rest

abbrev pub release_held : Option ℕ → M (Unit {0})
release_held none = pure tt
release_held (some user) = on_redis (λ s now. release_slot s now user)

unfoldable pub release : Conversation → M (Unit {0})
release c = release_held c.assigned_to
