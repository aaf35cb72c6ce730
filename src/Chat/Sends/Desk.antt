-- ===== src/Chat/Sends/Desk.antt =====
-- About apps/chat/services/assignment.py and apps/chat/services/lifecycle.py: whatever these
-- publish to a visitor's group is clean.
use azm_crm.Prelude.{
  ℕ, zero, suc, Option, none, some, List, [], ◌∷◌, Bool-cases, inl, inr, is_some, member, not, keep,
  ◌++◌,
}
use azm_crm.Chat.Model.{Conversation}
use azm_crm.Chat.Redis.Keys.{queue}
use azm_crm.Chat.Redis.{zrange, whole}
use azm_crm.Chat.Queue
use azm_crm.Chat.Presence.{has_capacity, claim_slot, agents_with_capacity}
use azm_crm.Chat.World.{M, find_conversation}
use azm_crm.Chat.Assignment.{
  Assigned, give_back, refuse, attach, claim_and_take, assign, release_held, release,
}
use azm_crm.Chat.Serving.{
  candidate_agents, announce_from, announce_positions, leave_queue, find_waiting, Round, stop,
  skipped, connected, connect_with, connect_head, serve_peeked, serve_head, round, go_on,
  serve_waiting, connect_next_waiting, eligible_agent_ids,
}
use azm_crm.Chat.Messaging.Boundary.{IsClean}
use azm_crm.Chat.Sends.{
  Sends, Sends-bind, Sends-then, Sends-pure, Sends-raise, Sends-publish, Grows-refl,
}

-- Actions whose every frame is clean.
abbrev pub Clean : {A : Type 0} → M A → Type 0
Clean m = Sends IsClean m

pub Clean-give_back : (user : ℕ) → Clean (give_back user)
unfolding give_back
Clean-give_back user = record { grows = λ w. Grows-refl IsClean w.sent }

Clean-refuse : (user : ℕ) (c : Conversation) → Clean (refuse user c)
Clean-refuse user c = Sends-then IsClean (Clean-give_back user) (Sends-pure IsClean _)

Clean-attach : (user : ℕ) (c : Conversation) (row : Option Conversation) → Clean (attach user c row)
unfolding attach
Clean-attach user c none =
    Sends-then IsClean (Clean-give_back user) (Sends-raise IsClean {A = Assigned} _)
Clean-attach user c (some locked) = record {
  grows = λ w. elim (Bool-cases (is_some locked.assigned_to)) [
    | inl e ↦ rw e ((Clean-refuse user c).grows w)
    | inr e ↦ rw e (Grows-refl IsClean w.sent)
  ];
}

Clean-claim_and_take :
    (c : Conversation) (user : ℕ) (rest : M Assigned)
    → Clean rest
    → Clean (claim_and_take c user rest)
Clean-claim_and_take c user rest h = record {
  grows = λ w. elim (Bool-cases (claim_slot w.settings w.now user w.redis).0) [
    | inl e ↦ rw e ((Clean-attach user c (find_conversation c.pk w.conversations)).grows _)
    | inr e ↦ rw e (h.grows _)
  ];
}

pub Clean-assign : (c : Conversation) (users : List ℕ) → Clean (assign c users)
unfolding assign
Clean-assign c [] = Sends-pure IsClean _
Clean-assign c (user ∷ users) = record {
  grows = λ w. elim (Bool-cases (has_capacity w.now user w.redis).0) [
    | inl e ↦ rw e ((Clean-claim_and_take c user (assign c users) (Clean-assign c users)).grows _)
    | inr e ↦ rw e ((Clean-assign c users).grows _)
  ];
}

Clean-release_held : (holder : Option ℕ) → Clean (release_held holder)
Clean-release_held none = Sends-pure IsClean tt
Clean-release_held (some user) = record { grows = λ w. Grows-refl IsClean w.sent }

pub Clean-release : (c : Conversation) → Clean (release c)
unfolding release
Clean-release c = Clean-release_held c.assigned_to

Clean-announce_from : (i : ℕ) (tokens : List ℕ) → Clean (announce_from i tokens)
unfolding announce_from
Clean-announce_from i [] = Sends-pure IsClean tt
Clean-announce_from i (token ∷ tokens) =
    Sends-publish IsClean _ _ _ tt (Clean-announce_from (suc i) tokens)

Clean-announce_positions : (department branch : ℕ) → Clean (announce_positions department branch)
unfolding announce_positions
Clean-announce_positions department branch = record {
  grows = λ w.
      let order = zrange (queue department branch) whole w.redis in
      (Clean-announce_from 1 order.0).grows (record w { redis = order.1 });
}

pub Clean-leave_queue : (token department branch : ℕ) → Clean (leave_queue token department branch)
unfolding leave_queue
Clean-leave_queue token department branch = record { grows = λ w. Grows-refl IsClean w.sent }

Clean-connect_with :
    (token department branch : ℕ) (found : Assigned)
    → Clean (connect_with token department branch found)
Clean-connect_with token department branch (none, c) = Sends-pure IsClean stop
Clean-connect_with token department branch (some agent, c) =
    Sends-then IsClean (Clean-leave_queue token department branch) (Sends-pure IsClean _)

Clean-connect_head :
    (token department branch : ℕ) (free : List ℕ) (row : Option Conversation)
    → Clean (connect_head token department branch free row)
Clean-connect_head token department branch free none =
    Sends-then IsClean (Clean-leave_queue token department branch) (Sends-pure IsClean skipped)
Clean-connect_head token department branch free (some c) =
    Sends-bind IsClean (Clean-assign c free) (Clean-connect_with token department branch)

Clean-serve_peeked :
    (department branch : ℕ) (free : List ℕ) (head : Option (ℕ × Option ℕ))
    → Clean (serve_peeked department branch free head)
Clean-serve_peeked department branch free none = Sends-pure IsClean stop
Clean-serve_peeked department branch free (some (token, score)) = record {
  grows = λ w.
      (Clean-connect_head token department branch free (find_waiting token w.conversations)).grows
        w;
}

Clean-serve_head :
    (department branch : ℕ) (free : List ℕ) → Clean (serve_head department branch free)
Clean-serve_head department branch [] = Sends-pure IsClean stop
Clean-serve_head department branch (u ∷ us) = record {
  grows = λ w.
      let head = Queue.peek department branch w.redis in
      (Clean-serve_peeked department branch (u ∷ us) head.0).grows (record w { redis = head.1 });
}

Clean-round : (department branch : ℕ) (exclude : List ℕ) → Clean (round department branch exclude)
unfolding round candidate_agents
Clean-round department branch exclude = record {
  grows = λ w.
      let free =
        agents_with_capacity w.now (eligible_agent_ids department branch w.users) w.redis in
      (Clean-serve_head department branch (keep (λ u. not (member u exclude)) free.0)).grows
        (record w { redis = free.1 });
}

module _ (again : List Conversation → M (List Conversation))
    (clean : (acc : List Conversation) → Clean (again acc)) where
  Clean-go_on : (acc : List Conversation) (outcome : Round) → Clean (go_on again acc outcome)
  Clean-go_on acc stop = Sends-pure IsClean acc
  Clean-go_on acc skipped = clean acc
  Clean-go_on acc (connected c) = clean (acc ++ c ∷ [])

Clean-serve_waiting :
    (fuel department branch : ℕ) (exclude : List ℕ) (acc : List Conversation)
    → Clean (serve_waiting fuel department branch exclude acc)
unfolding serve_waiting
Clean-serve_waiting zero department branch exclude acc =
    Sends-raise IsClean {A = List Conversation} _
Clean-serve_waiting (suc fuel) department branch exclude acc =
    Sends-bind IsClean (Clean-round department branch exclude) (
      Clean-go_on (serve_waiting fuel department branch exclude)
        (Clean-serve_waiting fuel department branch exclude) acc)

pub Clean-connect_next_waiting :
    (department branch : ℕ) (exclude : List ℕ)
    → Clean (connect_next_waiting department branch exclude)
unfolding connect_next_waiting
Clean-connect_next_waiting department branch exclude = record {
  grows = λ w.
      (Sends-bind IsClean (Clean-serve_waiting _ department branch exclude []) (λ result.
          Sends-then IsClean (Clean-announce_positions department branch)
            (Sends-pure IsClean result))).grows
        w;
}
