-- ===== src/Chat/Sends/Sweeping.antt =====
-- About apps/chat/tasks.py: whatever a sweep publishes to a visitor's group is clean.
use azm_crm.Prelude.{
  ℕ, Option, none, some, false, List, [], ◌∷◌, Bool-cases, inl, inr, ◌==◌, leb, ◌&&◌, not, is_some,
  length, ◌+◌,
}
use azm_crm.Chat.Model.{Conversation}
use azm_crm.Chat.Redis.Keys.{visitor, agent}
use azm_crm.Chat.Liveness.{gone}
use azm_crm.Chat.Queue
use azm_crm.Chat.World.{M}
use azm_crm.Chat.Sweeps.{
  active_rows, close_one, close_branches, close_deserted_desks, Counts, add, check_agent,
  interrupted, sweep_all, sweep_interrupted_conversations, close_idle, warned_at, warn_idle,
  idle_for, sweep_idle, sweep_idle_conversations,
}
use azm_crm.Chat.Messaging.Boundary.{IsClean}
use azm_crm.Chat.Sends.{
  Sends-if, Sends-bind, Sends-then, Sends-pure, Sends-on_redis, Sends-save_conversation, Grows-refl,
}
use azm_crm.Chat.Sends.Messages.{Sends-broadcast_system}
use azm_crm.Chat.Sends.Desk.{Clean}
use azm_crm.Chat.Sends.Endings.{
  Clean-finish, Clean-visitor_gone, Clean-agent_gone, Clean-desk_closed_if_empty,
}

Clean-close_one : (department branch waiting : ℕ) → Clean (close_one department branch waiting)
Clean-close_one department branch waiting = record {
  grows = λ w. elim (Bool-cases (waiting == 0)) [
    | inl e ↦ rw e (Grows-refl IsClean w.sent)
    | inr e ↦ rw e (
        (Sends-bind IsClean (Clean-desk_closed_if_empty department branch)
            (λ moved. Sends-pure IsClean (length moved))).grows
          w)
  ];
}

Clean-close_branches :
    (department : ℕ) (branches : List ℕ) → Clean (close_branches department branches)
unfolding close_branches
Clean-close_branches department [] = Sends-pure IsClean 0
Clean-close_branches department (branch ∷ branches) =
    Sends-on_redis IsClean (λ s now. Queue.waiting_count department branch) _
      λ waiting. Sends-bind IsClean (Clean-close_one department branch waiting) λ moved.
        Sends-bind IsClean (Clean-close_branches department branches)
          λ rest. Sends-pure IsClean (moved + rest)

pub Clean-close_deserted_desks :
    (departments branches : List ℕ) → Clean (close_deserted_desks departments branches)
unfolding close_deserted_desks
Clean-close_deserted_desks [] branches = Sends-pure IsClean 0
Clean-close_deserted_desks (department ∷ departments) branches =
    Sends-bind IsClean (Clean-close_branches department branches) λ moved.
      Sends-bind IsClean (Clean-close_deserted_desks departments branches)
        λ rest. Sends-pure IsClean (moved + rest)

Clean-check_agent : (c : Conversation) (holder : Option ℕ) → Clean (check_agent c holder)
Clean-check_agent c none = Sends-pure IsClean _
Clean-check_agent c (some _) =
    Sends-on_redis IsClean (λ s now. gone now c.pk agent) _
      λ away.
        Sends-if IsClean away (Sends-then IsClean (Clean-agent_gone c) (Sends-pure IsClean (0, 1)))
          (Sends-pure IsClean (0, 0))

Clean-interrupted : (c : Conversation) → Clean (interrupted c)
Clean-interrupted c =
    Sends-on_redis IsClean (λ s now. gone now c.pk visitor) _
      λ away.
        Sends-if IsClean away
          (Sends-then IsClean (Clean-visitor_gone c) (Sends-pure IsClean (1, 0)))
          (Clean-check_agent c c.assigned_to)

Clean-sweep_all :
    (step : Conversation → M Counts) (cs : List Conversation)
    → ((c : Conversation) → Clean (step c))
    → Clean (sweep_all step cs)
unfolding sweep_all
Clean-sweep_all step [] h = Sends-pure IsClean _
Clean-sweep_all step (c ∷ cs) h =
    Sends-bind IsClean (h c) λ one.
      Sends-bind IsClean (Clean-sweep_all step cs h) λ rest. Sends-pure IsClean (add one rest)

pub Clean-sweep_interrupted : Clean sweep_interrupted_conversations
unfolding sweep_interrupted_conversations
Clean-sweep_interrupted = record {
  grows = λ w. (Clean-sweep_all interrupted (active_rows w) Clean-interrupted).grows w;
}

Clean-close_idle : (c : Conversation) → Clean (close_idle c)
Clean-close_idle c =
    Sends-then IsClean (Sends-broadcast_system IsClean c _ tt tt)
      (Sends-then IsClean (Clean-finish c _ none false) (Sends-pure IsClean _))

Clean-warn_idle : (now : ℕ) (c : Conversation) → Clean (warn_idle now c)
Clean-warn_idle now c =
    Sends-then IsClean (Sends-broadcast_system IsClean c _ tt tt)
      (Sends-save_conversation IsClean c.pk (warned_at now) _ (Sends-pure IsClean _))

Clean-sweep_idle :
    (now limit warn_after : ℕ) (c : Conversation) → Clean (sweep_idle now limit warn_after c)
unfolding sweep_idle
Clean-sweep_idle now limit warn_after c =
    Sends-if IsClean (leb limit (idle_for now c)) (Clean-close_idle c) (
      Sends-if IsClean (leb warn_after (idle_for now c) && not (is_some c.idle_warned_at))
        (Clean-warn_idle now c) (Sends-pure IsClean _))

pub Clean-sweep_idle_conversations : Clean sweep_idle_conversations
unfolding sweep_idle_conversations
Clean-sweep_idle_conversations = record {
  grows = λ w.
      let step = sweep_idle w.now w.settings.idle_limit w.settings.idle_warning in
      (Clean-sweep_all step (active_rows w)
          (Clean-sweep_idle w.now w.settings.idle_limit w.settings.idle_warning)).grows
        w;
}
