-- ===== src/Chat/Sweeps.antt =====
-- apps/chat/tasks.py: the periodic sweeps. A sweep reads the conversations once, and goes through
-- those copies. The numbers of the active departments and branches are arguments.
pub mod Warning
use azm_crm.Prelude.{
  ℕ, ◌+◌, ◌-◌, Option, none, some, Bool, true, false, ◌&&◌, not, List, [], ◌∷◌, if◌then◌else◌, leb,
  is_some, keep, length, ◌==◌,
}
use azm_crm.Chat.Model.{Conversation, state_eq, active, idle_timeout, idle_closed, idle_warning}
use azm_crm.Chat.Redis.Keys.{visitor, agent}
use azm_crm.Chat.Queue
use azm_crm.Chat.Liveness.{gone}
use azm_crm.Chat.Messaging.{broadcast_system}
use azm_crm.Chat.Lifecycle.{desk_closed_if_empty, visitor_gone, agent_gone, finish}
use azm_crm.Chat.World.{World, M, ◌>>=◌, ◌>>◌, pure, gets, on_redis, save_conversation}

-- `Conversation.objects.filter(state=ACTIVE)`
abbrev pub is_active : Conversation → Bool
is_active c = state_eq c.state active && not (is_some c.deleted_at)

abbrev pub active_rows : World → List Conversation
active_rows w = keep is_active w.conversations

abbrev pub close_one : ℕ → ℕ → ℕ → M ℕ
close_one department branch waiting =
    if waiting == 0
    then pure 0
    else do moved ← desk_closed_if_empty department branch; pure (length moved)

unfoldable pub close_branches : ℕ → List ℕ → M ℕ
close_branches department [] = pure 0
close_branches department (branch ∷ branches) = do
  waiting ← on_redis (λ s now. Queue.waiting_count department branch)
  moved ← close_one department branch waiting
  rest ← close_branches department branches
  pure (moved + rest)

unfoldable pub close_deserted_desks : List ℕ → List ℕ → M ℕ
unfolding close_branches
close_deserted_desks [] branches = pure 0
close_deserted_desks (department ∷ departments) branches = do
  moved ← close_branches department branches
  rest ← close_deserted_desks departments branches
  pure (moved + rest)

-- What a sweep counts: those it ended or warned, and those it handed on or closed.
abbrev pub Counts : Type 0
Counts = ℕ × ℕ

abbrev pub add : Counts → Counts → Counts
add (a, b) (c, d) = (a + c, b + d)

abbrev pub lose_visitor : Conversation → M Counts
lose_visitor c = do visitor_gone c; pure (1, 0)

abbrev pub lose_agent : Conversation → M Counts
lose_agent c = do agent_gone c; pure (0, 1)

abbrev pub check_agent : Conversation → Option ℕ → M Counts
check_agent c none = pure (0, 0)
check_agent c (some _) = do
  away ← on_redis (λ s now. gone now c.pk agent)
  if away then lose_agent c else pure (0, 0)

abbrev pub interrupted : Conversation → M Counts
interrupted c = do
  away ← on_redis (λ s now. gone now c.pk visitor)
  if away then lose_visitor c else check_agent c c.assigned_to

unfoldable pub sweep_all : (Conversation → M Counts) → List Conversation → M Counts
sweep_all step [] = pure (0, 0)
sweep_all step (c ∷ cs) = do one ← step c; rest ← sweep_all step cs; pure (add one rest)

unfoldable pub sweep_interrupted_conversations : M Counts
unfolding sweep_all
sweep_interrupted_conversations = do rows ← gets active_rows; sweep_all interrupted rows

abbrev pub close_idle : Conversation → M Counts
close_idle c = do
  broadcast_system c idle_closed false
  finish c idle_timeout none false
  pure (0, 1)

abbrev pub warned_at : ℕ → Conversation → Conversation
warned_at now c = record c { idle_warned_at = some now }

abbrev pub warn_idle : ℕ → Conversation → M Counts
warn_idle now c = do
  broadcast_system c idle_warning false
  save_conversation c.pk (warned_at now)
  pure (1, 0)

-- `(now - last_activity_at).total_seconds()`: an activity after `now`, the moment that the sweep
-- began, is no idle time here and a negative one in the source; both are below any positive limit.
abbrev pub idle_for : ℕ → Conversation → ℕ
idle_for now c = now - c.last_activity_at

unfoldable pub sweep_idle : ℕ → ℕ → ℕ → Conversation → M Counts
sweep_idle now limit warn_after c =
    if leb limit (idle_for now c)
    then close_idle c
    else if leb warn_after (idle_for now c) && not (is_some c.idle_warned_at)
    then warn_idle now c
    else pure (0, 0)

unfoldable pub sweep_idle_conversations : M Counts
unfolding sweep_all sweep_idle
sweep_idle_conversations = do
  w ← gets (λ w. w)
  sweep_all (sweep_idle w.now w.settings.idle_limit w.settings.idle_warning) (active_rows w)
