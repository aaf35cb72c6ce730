-- ===== src/Chat/Sends/Endings.antt =====
-- About apps/chat/services/lifecycle.py: whatever an ending, a handing back or the closing of a
-- desk publishes to a visitor's group is clean.
use azm_crm.Prelude.{
  ℕ, Option, none, some, Bool, true, false, List, [], ◌∷◌, Bool-cases, inl, inr, first, ◌==◌, keep,
  ◌++◌, refl,
}
use azm_crm.Tickets.Model.{Ticket, known, Status}
use azm_crm.Tickets.Lifecycle
use azm_crm.Chat.Model.{
  Conversation, Notice, EndReason, state_eq, ended, Contact, agent_group, chat_disconnect,
}
use azm_crm.Chat.World.{find_ticket}
use azm_crm.Chat.Queue
use azm_crm.Chat.Assignment.{Assigned}
use azm_crm.Chat.Redis.Keys.{visitor}
use azm_crm.Chat.Liveness.{mark_seen}
use azm_crm.Chat.Presence.{anyone_online, go_offline}
use azm_crm.Chat.Serving.{anyone_available, eligible_agent_ids, find_waiting}
use azm_crm.Chat.Lifecycle.{
  forget_unread, forget_pending, save_resolved, resolve_found, resolve_ticket, announce_reference,
  announce_ended, close_row, end_open, finish, hand_back, requeue, visitor_gone, agent_gone, carry,
  just, announce_desk_closed, strand, strand_all, close_desk, desk_closed_if_empty, requeue_all,
  is_held_by, agent_deactivated, queue_unless, try_assign,
}
use azm_crm.Chat.Messaging.Boundary.{IsClean}
use azm_crm.Chat.Sends.{
  Sends-bind, Sends-then, Sends-pure, Sends-raise, Sends-publish, Sends-publish_last,
  Sends-on_redis, Sends-save_conversation, Grows-refl, Grows-trans,
}
use azm_crm.Chat.Sends.Messages.{Sends-broadcast_system, Sends-broadcast_staff}
use azm_crm.Chat.Sends.Desk.{
  Clean, Clean-assign, Clean-release, Clean-leave_queue, Clean-connect_next_waiting,
}

Clean-forget_unread : (pk : ℕ) (holder : Option ℕ) → Clean (forget_unread pk holder)
Clean-forget_unread pk none = Sends-pure IsClean tt
Clean-forget_unread pk (some agent) = record { grows = λ w. Grows-refl IsClean w.sent }

Clean-forget_pending : (pk : ℕ) (holder : Option ℕ) → Clean (forget_pending pk holder)
Clean-forget_pending pk none = Sends-pure IsClean tt
Clean-forget_pending pk (some agent) = record { grows = λ w. Grows-refl IsClean w.sent }

Clean-save_resolved :
    (r : Lifecycle.Result (Ticket × List Lifecycle.Field)) → Clean (save_resolved r)
Clean-save_resolved (Lifecycle.ok (t, fields)) = record { grows = λ w. Grows-refl IsClean w.sent }
Clean-save_resolved (Lifecycle.invalid _ _) = Sends-pure IsClean tt

Clean-resolve_found : (row : Option Ticket) → Clean (resolve_found row)
Clean-resolve_found none = Sends-raise IsClean {A = Unit} _
Clean-resolve_found (some t) = record {
  grows = λ w.
      (Clean-save_resolved (Lifecycle.apply_transition w.now t (known Status.resolved))).grows w;
}

Clean-resolve_ticket : (resolve : Bool) (ticket : ℕ) → Clean (resolve_ticket resolve ticket)
unfolding resolve_ticket
Clean-resolve_ticket false ticket = Sends-pure IsClean tt
Clean-resolve_ticket true ticket = record {
  grows = λ w. (Clean-resolve_found (find_ticket ticket w.tickets)).grows w;
}

Clean-announce_reference : (pk : ℕ) (row : Option Ticket) → Clean (announce_reference pk row)
Clean-announce_reference pk none = Sends-raise IsClean {A = Unit} _
Clean-announce_reference pk (some t) =
    Sends-publish IsClean _ _ _ tt (Sends-publish_last IsClean _ _ tt)

Clean-announce_ended : (c : Conversation) → Clean (announce_ended c)
unfolding announce_ended
Clean-announce_ended c = record {
  grows = λ w. (Clean-announce_reference c.pk (find_ticket c.ticket w.tickets)).grows w;
}

Clean-close_row :
    (c : Conversation) (reason : EndReason) (ended_by : Option ℕ)
    → Clean (close_row c reason ended_by)
unfolding close_row
Clean-close_row c reason ended_by = Sends-then IsClean (Clean-release c) (
    Sends-then IsClean (Clean-leave_queue c.pk c.department c.branch) (
      Sends-then IsClean (Clean-forget_unread c.pk c.assigned_to)
        (record { grows = λ w. Grows-refl IsClean w.sent })))

Clean-end_open :
    (c : Conversation) (reason : EndReason) (ended_by : Option ℕ) (resolve : Bool)
    → Clean (end_open c reason ended_by resolve)
Clean-end_open c reason ended_by resolve =
    Sends-bind IsClean (Clean-close_row c reason ended_by) λ done.
      Sends-then IsClean (Clean-resolve_ticket resolve done.ticket) (
        Sends-then IsClean (Sends-broadcast_system IsClean done _ tt tt) (
          Sends-then IsClean (Clean-announce_ended done) (
            Sends-then IsClean (Clean-connect_next_waiting done.department done.branch [])
              (Sends-pure IsClean done))))

pub Clean-finish :
    (c : Conversation) (reason : EndReason) (ended_by : Option ℕ) (resolve : Bool)
    → Clean (finish c reason ended_by resolve)
unfolding finish
Clean-finish c reason ended_by resolve = record {
  grows = λ w. elim (Bool-cases (state_eq c.state ended)) [
    | inl e ↦ rw e (Grows-refl IsClean w.sent)
    | inr e ↦ rw e ((Clean-end_open c reason ended_by resolve).grows w)
  ];
}

pub Clean-requeue : (c : Conversation) (reason : Notice) → Clean (requeue c reason)
unfolding requeue
Clean-requeue c reason = Sends-then IsClean (Clean-release c) (
    Sends-save_conversation IsClean c.pk hand_back _ (
      Sends-then IsClean (Clean-forget_unread c.pk c.assigned_to) (
        Sends-then IsClean (Clean-forget_pending c.pk c.assigned_to) (
          Sends-then IsClean (Sends-broadcast_system IsClean c reason tt tt) (
            Sends-on_redis IsClean (λ s now. Queue.join now c.pk c.department c.branch) _
              λ _.
                Sends-on_redis IsClean (λ s now. mark_seen s now c.pk visitor) _
                  λ _.
                    Sends-then IsClean
                      (Clean-connect_next_waiting c.department c.branch (just c.assigned_to))
                      (Sends-pure IsClean (hand_back c)))))))

pub Clean-visitor_gone : (c : Conversation) → Clean (visitor_gone c)
unfolding visitor_gone
Clean-visitor_gone c =
    Sends-then IsClean (Sends-broadcast_staff IsClean c _ tt) (Clean-finish c _ none false)

pub Clean-agent_gone : (c : Conversation) → Clean (agent_gone c)
unfolding agent_gone
Clean-agent_gone c = Clean-requeue c _

Clean-carry : (token : ℕ) (p : Option Contact) (t : Option Ticket) → Clean (carry token p t)
Clean-carry token (some p) (some t) = Sends-publish_last IsClean _ _ tt
Clean-carry token none t = Sends-raise IsClean {A = Unit} _
Clean-carry token (some p) none = Sends-raise IsClean {A = Unit} _

Clean-announce_desk_closed : (token : ℕ) (c : Conversation) → Clean (announce_desk_closed token c)
unfolding announce_desk_closed
Clean-announce_desk_closed token c = record {
  grows = λ w.
      let person = first (λ p. p.pk == c.contact) w.contacts in
      (Clean-carry token person (find_ticket c.ticket w.tickets)).grows w;
}

Clean-strand : (token : ℕ) (row : Option Conversation) → Clean (strand token row)
Clean-strand token none = Sends-pure IsClean []
Clean-strand token (some c) =
    Sends-then IsClean (Clean-announce_desk_closed token c)
      (Sends-bind IsClean (Clean-finish c _ none false) λ done. Sends-pure IsClean (done ∷ []))

Clean-strand_all : (tokens : List ℕ) → Clean (strand_all tokens)
unfolding strand_all
Clean-strand_all [] = Sends-pure IsClean []
Clean-strand_all (token ∷ tokens) = record {
  grows = λ w.
      (Sends-bind IsClean (Clean-strand token (find_waiting token w.conversations)) λ one.
          Sends-bind IsClean (Clean-strand_all tokens)
            λ rest. Sends-pure IsClean (one ++ rest)).grows
        w;
}

Clean-close_desk :
    (department branch : ℕ) (online : Bool) → Clean (close_desk department branch online)
Clean-close_desk department branch true = Sends-pure IsClean []
Clean-close_desk department branch false =
    Sends-on_redis IsClean (λ s now. Queue.drain department branch) _ Clean-strand_all

pub Clean-desk_closed_if_empty :
    (department branch : ℕ) → Clean (desk_closed_if_empty department branch)
unfolding desk_closed_if_empty anyone_available
Clean-desk_closed_if_empty department branch = record {
  grows = λ w.
      let asked = anyone_online w.now (eligible_agent_ids department branch w.users) w.redis in
      (Clean-close_desk department branch asked.0).grows (record w { redis = asked.1 });
}

Clean-requeue_all : (cs : List Conversation) → Clean (requeue_all cs)
unfolding requeue_all
Clean-requeue_all [] = Sends-pure IsClean tt
Clean-requeue_all (c ∷ cs) = Sends-then IsClean (Clean-requeue c _) (Clean-requeue_all cs)

pub Clean-agent_deactivated : (user : ℕ) → Clean (agent_deactivated user)
unfolding agent_deactivated
Clean-agent_deactivated user = record {
  grows = λ w.
      let told = w.sent ++ (agent_group user, chat_disconnect) ∷ [] in
      Grows-trans IsClean w.sent told _ ((agent_group user, chat_disconnect) ∷ [], refl, (tt, tt))
        ((Clean-requeue_all (keep (is_held_by user) w.conversations)).grows
          (record w { redis = (go_offline user w.redis).1; sent = told }));
}

Clean-queue_unless : (found : Assigned) → Clean (queue_unless found)
Clean-queue_unless (some agent, c) = Sends-pure IsClean _
Clean-queue_unless (none, c) = record { grows = λ w. Grows-refl IsClean w.sent }

pub Clean-try_assign : (c : Conversation) (candidates : List ℕ) → Clean (try_assign c candidates)
unfolding try_assign
Clean-try_assign c candidates = Sends-bind IsClean (Clean-assign c candidates) Clean-queue_unless
