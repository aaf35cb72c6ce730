-- ===== src/Chat/Sockets/Clean/Frames.antt =====
-- About the frames of an agent's socket (apps/chat/consumers/agent.py): whatever they publish to a
-- visitor's group is clean.
use azm_crm.Prelude.{
  ℕ, zero, suc, String, Option, none, some, Bool, true, false, List, map, keep, length,
}
use azm_crm.Tickets.Model.{shared}
use azm_crm.Chat.Model.{Conversation, User}
use azm_crm.Chat.Presence.{go_offline, anyone_online}
use azm_crm.Chat.Messaging.{agent_message}
use azm_crm.Chat.Messaging.Boundary.{IsClean}
use azm_crm.Chat.Sockets.Wire.{
  Json, null, flag, number, str, items, fields, Fields, Wire, Wanted, unreadable, negative, row,
  get, is_text, parse, truthy,
}
use azm_crm.Chat.Sockets.Limiter.{Limiter, allow}
use azm_crm.Chat.Sockets.Agent.{Agent, held_ids}
use azm_crm.Chat.Sockets.Agent.Frames.{
  find_wanted, conversation_for, reply_in, reply, typing_in, typing, is_colleague, unless_online,
  close_odd_desk, close_desk_of, leave_desk, answer_offline, offline_requested, clear_wanted, focus,
  end_reason, close_found, close_conversation, handle, handle_if, receive,
}
use azm_crm.Chat.Sends.{Sends-bind, Sends-then, Sends-pure, Sends-raise, Sends-if, Grows-refl}
use azm_crm.Chat.Sends.Messages.{Sends-record_and_broadcast, Sends-broadcast_typing}
use azm_crm.Chat.Sends.Desk.{Clean}
use azm_crm.Chat.Sends.Endings.{Clean-finish, Clean-desk_closed_if_empty}
use azm_crm.Chat.Sockets.Supervisor.Silence.{Sends-body_text}
use azm_crm.Chat.Sockets.Clean.{Clean-still_here}

Clean-find_wanted : (user : User) (wanted : Wanted) → Clean (find_wanted user wanted)
Clean-find_wanted user unreadable = Sends-raise IsClean {A = Option Conversation} _
Clean-find_wanted user negative = Sends-pure IsClean none
Clean-find_wanted user (row pk) = record { grows = λ w. Grows-refl IsClean w.sent }

Clean-conversation_for :
    (wire : Wire) (user : User) (v : Json) → Clean (conversation_for wire user v)
unfolding conversation_for
Clean-conversation_for wire user null = Sends-pure IsClean none
Clean-conversation_for wire user (flag b) = Clean-find_wanted user (wire.to_int (flag b))
Clean-conversation_for wire user (number n) = Clean-find_wanted user (wire.to_int (number n))
Clean-conversation_for wire user (str s) = Clean-find_wanted user (wire.to_int (str s))
Clean-conversation_for wire user (items v) = Clean-find_wanted user (wire.to_int (items v))
Clean-conversation_for wire user (fields v) = Clean-find_wanted user (wire.to_int (fields v))

Clean-reply :
    (wire : Wire) (conversation text : Json) (a : Agent) → Clean (reply wire conversation text a)
unfolding reply agent_message
Clean-reply wire conversation text a =
    Sends-bind IsClean (Clean-conversation_for wire a.user conversation) reply_found
  where
    reply_found : (found : Option Conversation) → Clean (reply_in wire a text found)
    reply_found none = Sends-pure IsClean a
    reply_found (some c) = Sends-bind IsClean (Sends-body_text IsClean wire text) λ body.
        Sends-then IsClean (Sends-record_and_broadcast IsClean c body _ _ shared (λ m e. (e, tt)))
          (Sends-pure IsClean a)

Clean-typing : (wire : Wire) (conversation : Json) (a : Agent) → Clean (typing wire conversation a)
unfolding typing
Clean-typing wire conversation a =
    Sends-bind IsClean (Clean-conversation_for wire a.user conversation) type_found
  where
    type_found : (found : Option Conversation) → Clean (typing_in a found)
    type_found none = Sends-pure IsClean a
    type_found (some c) =
        Sends-then IsClean (Sends-broadcast_typing IsClean c _ tt tt) (Sends-pure IsClean a)

Clean-unless_online : (online : Bool) → Clean (unless_online online)
Clean-unless_online true = Sends-pure IsClean _
Clean-unless_online false = Sends-raise IsClean {A = List Conversation} _

Clean-close_odd_desk : (user : User) → Clean (close_odd_desk user)
unfolding close_odd_desk
Clean-close_odd_desk user = record {
  grows = λ w.
      let ids = map (λ (u : User). u.pk) (keep (is_colleague user) w.users) in
      let asked = anyone_online w.now ids w.redis in
      (Clean-unless_online asked.0).grows (record w { redis = asked.1 });
}

Clean-close_desk_of :
    (user : User) (department branch : Option ℕ) → Clean (close_desk_of user department branch)
Clean-close_desk_of user (some department) (some branch) =
    Clean-desk_closed_if_empty department branch
Clean-close_desk_of user none branch = Clean-close_odd_desk user
Clean-close_desk_of user (some department) none = Clean-close_odd_desk user

Clean-leave_desk : (user : User) → Clean (leave_desk user)
unfolding leave_desk
Clean-leave_desk user = record {
  grows = λ w.
      (Sends-then IsClean (Clean-close_desk_of user user.department user.branch)
          (Sends-pure IsClean tt)).grows
        (record w { redis = (go_offline user.pk w.redis).1 });
}

Clean-offline_requested : (a : Agent) → Clean (offline_requested a)
unfolding offline_requested
Clean-offline_requested a = record { grows = λ w. (answer (length (held_ids a.user.pk w))).grows w }
  where
    answer : (n : ℕ) → Clean (answer_offline a n)
    answer zero = Sends-then IsClean (Clean-leave_desk a.user) (Sends-pure IsClean _)
    answer (suc n) = Sends-pure IsClean _

Clean-clear_wanted : (user : ℕ) (wanted : Wanted) → Clean (clear_wanted user wanted)
Clean-clear_wanted user unreadable = record { grows = λ w. Grows-refl IsClean w.sent }
Clean-clear_wanted user negative = record { grows = λ w. Grows-refl IsClean w.sent }
Clean-clear_wanted user (row pk) = record { grows = λ w. Grows-refl IsClean w.sent }

Clean-focus : (wire : Wire) (v : Json) (a : Agent) → Clean (focus wire v a)
unfolding focus
Clean-focus wire null a = Sends-pure IsClean a
Clean-focus wire (flag b) a =
    Sends-then IsClean (Clean-clear_wanted a.user.pk _) (Sends-pure IsClean a)
Clean-focus wire (number n) a =
    Sends-then IsClean (Clean-clear_wanted a.user.pk _) (Sends-pure IsClean a)
Clean-focus wire (str s) a =
    Sends-then IsClean (Clean-clear_wanted a.user.pk _) (Sends-pure IsClean a)
Clean-focus wire (items v) a =
    Sends-then IsClean (Clean-clear_wanted a.user.pk _) (Sends-pure IsClean a)
Clean-focus wire (fields v) a =
    Sends-then IsClean (Clean-clear_wanted a.user.pk _) (Sends-pure IsClean a)

Clean-close_conversation :
    (wire : Wire) (conversation : Json) (resolve : Bool) (a : Agent)
    → Clean (close_conversation wire conversation resolve a)
unfolding close_conversation
Clean-close_conversation wire conversation resolve a =
    Sends-bind IsClean (Clean-conversation_for wire a.user conversation) end_found
  where
    end_found : (found : Option Conversation) → Clean (close_found a resolve found)
    end_found none = Sends-pure IsClean a
    end_found (some c) =
        Sends-then IsClean (Clean-finish c (end_reason resolve) _ resolve) (Sends-pure IsClean a)

Clean-handle : (wire : Wire) (payload : Fields) (a : Agent) → Clean (handle wire payload a)
unfolding handle
Clean-handle wire payload a =
    let kind = get "type" null payload in
    let conversation = get "conversation" null payload in
    Sends-if IsClean (is_text "message" kind)
      (Clean-reply wire conversation (get "text" (str "") payload) a)
      (Sends-if IsClean (is_text "typing" kind) (Clean-typing wire conversation a) (
        Sends-if IsClean (is_text "heartbeat" kind)
          (record { grows = λ w. Grows-refl IsClean w.sent })
          (Sends-if IsClean (is_text "online" kind)
            (record { grows = λ w. Grows-refl IsClean w.sent })
            (Sends-if IsClean (is_text "offline" kind) (Clean-offline_requested a) (
              Sends-if IsClean (is_text "focus" kind) (Clean-focus wire conversation a) (
                Sends-if IsClean (is_text "close" kind)
                  (Clean-close_conversation wire conversation
                    (truthy wire (get "resolve" null payload)) a)
                  (Sends-pure IsClean a)))))))

pub Clean-agent_receive :
    (wire : Wire) (at : ℕ) (frame : Option String) (a : Agent) → Clean (receive wire at frame a)
unfolding receive
Clean-agent_receive wire at frame a = frame_if (allow at a.limiter)
  where
    frame_if : (passed : Bool × Limiter) → Clean (handle_if wire (parse wire frame) a passed)
    frame_if (false, l) = Sends-pure IsClean _
    frame_if (true, l) =
        Sends-then IsClean (Clean-still_here a.user.pk)
          (Clean-handle wire (parse wire frame) (record a { limiter = l }))
