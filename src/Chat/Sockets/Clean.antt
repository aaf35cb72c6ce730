-- ===== src/Chat/Sockets/Clean.antt =====
-- About the consumers of apps/chat/consumers/: whatever a socket publishes to a visitor's group is
-- clean, when it opens, at every frame and when it ends.
pub mod Frames
use azm_crm.Prelude.{
  ℕ, zero, suc, String, Option, none, some, Bool, true, false, List, [], ◌∷◌, refl, ◌≡◌, Bool-cases,
  inl, inr, map, keep, if◌then◌else◌, length,
}
use azm_crm.Tickets.Model.{shared}
use azm_crm.Chat.Model.{Conversation, User, staff_group, Group, Payload}
use azm_crm.Chat.Presence.{
  socket_opened, socket_closed, heartbeat, go_online, go_offline, anyone_online,
}
use azm_crm.Chat.Pending
use azm_crm.Chat.Redis.Keys
use azm_crm.Chat.Liveness.{mark_seen}
use azm_crm.Chat.Messaging.Boundary.{IsClean}
use azm_crm.Chat.Tokens.{Signer}
use azm_crm.Chat.World.{World, M, pure, ◌>>=◌}
use azm_crm.Chat.Sockets.Wire.{
  Json, null, flag, number, str, items, fields, Wire, Fields, get, is_text, parse,
}
use azm_crm.Chat.Sockets.Limiter.{Limiter, allow}
use azm_crm.Chat.Sockets.{send_all}
use azm_crm.Chat.Sockets.Visitor
use azm_crm.Chat.Sockets.Visitor.{Visitor, Query}
use azm_crm.Chat.Sockets.Agent
use azm_crm.Chat.Sockets.Agent.{
  Agent, see_all, still_here, replay, as_out, held_ids, is_staff_role, open_socket, join_all,
}
use azm_crm.Chat.Sockets.Supervisor
use azm_crm.Chat.Sockets.Supervisor.{is_observer_role, authorize, open_observation, watch}
use azm_crm.Chat.Sends.{
  Grows, Sends-bind, Sends-then, Sends-pure, Sends-raise, Sends-if, Sends-on_redis, Grows-refl,
}
use azm_crm.Chat.Sends.Messages.{
  Sends-record_and_broadcast, Sends-broadcast_typing, Sends-broadcast_staff,
}
use azm_crm.Chat.Messaging.{visitor_message, agent_message}
use azm_crm.Chat.Sends.Desk.{Clean}
use azm_crm.Chat.Sends.Endings.{Clean-finish, Clean-desk_closed_if_empty}
use azm_crm.Chat.Sockets.Supervisor.Silence.{Sends-body_text}

Clean-record_text :
    (wire : Wire) (v : Visitor) (text : Json) → Clean (Visitor.record_text wire v text)
unfolding Visitor.record_text visitor_message
Clean-record_text wire v text = Sends-bind IsClean (Sends-body_text IsClean wire text) λ body.
    Sends-bind IsClean
      (Sends-record_and_broadcast IsClean v.conversation body _ _ shared (λ m e. (e, tt)))
      λ result. Sends-pure IsClean _

Clean-visitor_frame :
    (wire : Wire) (v : Visitor) (payload : Fields) → Clean (Visitor.handle wire v payload)
unfolding Visitor.handle
Clean-visitor_frame wire v payload =
    let kind = get "type" null payload in
    Sends-if IsClean (is_text "message" kind)
      (Clean-record_text wire v (get "text" (str "") payload))
      (Sends-if IsClean (is_text "typing" kind)
        (Sends-then IsClean (Sends-broadcast_typing IsClean v.conversation _ tt tt)
          (Sends-pure IsClean v))
        (Sends-if IsClean (is_text "close" kind)
          (Sends-bind IsClean (Clean-finish v.conversation _ none false) λ c. Sends-pure IsClean _)
          (Sends-pure IsClean v)))

pub Clean-visitor_receive :
    (wire : Wire) (at : ℕ) (frame : Option String) (v : Visitor)
    → Clean (Visitor.receive wire at frame v)
unfolding Visitor.receive
Clean-visitor_receive wire at frame v = record {
  grows = λ w.
      (handle_if (allow at v.limiter)).grows (record w {
        redis = (mark_seen w.settings w.now v.conversation.pk Keys.visitor w.redis).1;
      });
}
  where
    handle_if :
        (passed : Bool × Limiter) → Clean (Visitor.handle_if wire (parse wire frame) v passed)
    handle_if (false, l) = Sends-pure IsClean _
    handle_if (true, l) = Clean-visitor_frame wire (record v { limiter = l }) (parse wire frame)

pub Clean-visitor_connect :
    (k : Signer) (query : Query) (second at : ℕ) → Clean (Visitor.connect k query second at)
unfolding Visitor.connect
Clean-visitor_connect k query second at = record {
  grows = λ w. (open_found (Visitor.authorize k (Visitor.value_of "token" query) w)).grows w;
}
  where
    open_found : (found : Option Conversation) → Clean (Visitor.open_socket second at found)
    open_found none = Sends-pure IsClean none
    open_found (some c) = record { grows = λ w. Grows-refl IsClean w.sent }

Clean-see_all : (cs : List ℕ) → Clean (see_all cs)
unfolding see_all
Clean-see_all [] = Sends-pure IsClean tt
Clean-see_all (c ∷ cs) =
    Sends-on_redis IsClean (λ s now. mark_seen s now c Keys.agent) _ λ _. Clean-see_all cs

pub Clean-still_here : (user : ℕ) → Clean (still_here user)
unfolding still_here
Clean-still_here user = record { grows = λ w. (Clean-see_all (held_ids user w)).grows w }

Clean-replay : (cs : List ℕ) (a : Agent) → Clean (replay cs a)
unfolding replay
Clean-replay [] a = Sends-pure IsClean a
Clean-replay (c ∷ cs) a =
    Sends-on_redis IsClean (λ s now. Pending.drain now c a.user.pk) _
      λ notes. Clean-replay cs (record a { line = send_all (as_out notes) a.line })

pub Clean-agent_connect :
    (user : Option User) (second at : ℕ) → Clean (Agent.connect user second at)
unfolding Agent.connect
Clean-agent_connect none second at = Sends-pure IsClean none
Clean-agent_connect (some user) second at =
    Sends-if IsClean (is_staff_role user.role) (record { grows = opening })
      (Sends-pure IsClean none)
  where
    opening : (w : World) → Grows IsClean w.sent (open_socket second at user w).1.sent
    opening w =
        (Sends-then IsClean (Clean-still_here user.pk) (
            Sends-bind IsClean (Clean-replay (held_ids user.pk w) _)
              λ a. Sends-pure IsClean (some a))).grows
          (record w { redis = (socket_opened w.settings w.now user.pk w.redis).1 })

pub Clean-agent_disconnect : (a : Agent) → Clean (Agent.disconnect a)
unfolding Agent.disconnect
Clean-agent_disconnect a = record { grows = λ w. Grows-refl IsClean w.sent }

Clean-open_observation :
    (conversation observer : ℕ) → Clean (open_observation conversation observer)
unfolding open_observation
Clean-open_observation conversation observer = record { grows = λ w. Grows-refl IsClean w.sent }

pub Clean-observer_connect :
    (user : Option User) (wanted : Option ℕ) (second at : ℕ)
    → Clean (Supervisor.connect user wanted second at)
unfolding Supervisor.connect
Clean-observer_connect none wanted second at = Sends-pure IsClean none
Clean-observer_connect (some user) wanted second at =
    Sends-if IsClean (is_observer_role user.role)
      (record { grows = λ w. (watch_found (authorize user wanted w)).grows w })
      (Sends-pure IsClean none)
  where
    watch_found : (found : Option Conversation) → Clean (watch second at user found)
    watch_found none = Sends-pure IsClean none
    watch_found (some c) =
        Sends-bind IsClean (Clean-open_observation c.pk user.pk)
          λ row. Sends-then IsClean (Sends-broadcast_staff IsClean c _ tt) (Sends-pure IsClean _)
