-- ===== src/Chat/Sockets/Agent.antt =====
-- apps/chat/consumers/agent.py: the socket of a member of staff, one for all the conversations
-- that they hold. The handlers of its frames are in Chat/Sockets/Agent/Frames.antt.
pub mod Frames
pub mod Scope
use azm_crm.Prelude.{
  ℕ, String, Option, none, some, Bool, true, false, ◌&&◌, not, ◌==◌, List, [], ◌∷◌, ◌++◌,
  if◌then◌else◌, map, keep, member, is_some, same_id, first, any,
}
use azm_crm.Chat.Settings.{Settings}
use azm_crm.Chat.Model.{
  Conversation, User, Role, agent, supervisor, administrator, Group, public_group, staff_group,
  agent_group, Html,
}
use azm_crm.Chat.Redis.Keys
use azm_crm.Chat.Redis.Keys.{Value, num}
use azm_crm.Chat.Liveness.{mark_seen}
use azm_crm.Chat.Presence.{socket_opened, socket_closed}
use azm_crm.Chat.Pending
use azm_crm.Chat.Lifecycle.{is_held_by}
use azm_crm.Chat.World.{World, M, ◌>>=◌, ◌>>◌, pure, gets, on_redis}
use azm_crm.Chat.Sockets.Limiter.{Limiter, fresh}
use azm_crm.Chat.Sockets.{
  Out, html, event, assigned, Line, group_add, group_discard, send, send_all,
}

pub record Agent : Type 0 where
  pub user : User
  pub limiter : Limiter
  pub joined : List ℕ
  pub line : Line

-- `STAFF_ROLES`
abbrev pub is_staff_role : Role → Bool
is_staff_role agent = true
is_staff_role supervisor = true
is_staff_role administrator = true

-- `_held_conversation_ids`
abbrev pub held_ids : ℕ → World → List ℕ
held_ids user w = map (λ (c : Conversation). c.pk) (keep (is_held_by user) w.conversations)

-- A set: what is there already is not added again.
abbrev pub add_to_set : ℕ → List ℕ → List ℕ
add_to_set n ns = if member n ns then ns else ns ++ n ∷ []

-- `_join_conversation`
unfoldable pub join_conversation : ℕ → Agent → Agent
join_conversation c a = record a {
  joined = add_to_set c a.joined;
  line = group_add (staff_group c) (group_add (public_group c) a.line);
}

-- `_leave_conversation`
unfoldable pub leave_conversation : ℕ → Agent → Agent
leave_conversation c a = record a {
  joined = keep (λ n. not (n == c)) a.joined;
  line = group_discard (staff_group c) (group_discard (public_group c) a.line);
}

unfoldable pub join_all : List ℕ → Agent → Agent
join_all [] a = a
join_all (c ∷ cs) a = join_all cs (join_conversation c a)

unfoldable pub leave_all : List ℕ → Agent → Agent
leave_all [] a = a
leave_all (c ∷ cs) a = leave_all cs (leave_conversation c a)

unfoldable pub chat_assigned : ℕ → Agent → Agent
unfolding join_conversation
chat_assigned c a =
    let b = join_conversation c a in record b { line = send (event (assigned c)) b.line }

unfoldable pub see_all : List ℕ → M (Unit {0})
see_all [] = pure tt
see_all (c ∷ cs) = do on_redis (λ s now. mark_seen s now c Keys.agent); see_all cs

-- `_still_here`
unfoldable pub still_here : ℕ → M (Unit {0})
unfolding see_all
still_here user = do held ← gets (held_ids user); see_all held

-- The values of the hash of held notes are rendered HTML.
abbrev pub as_out : List Value → List Out
as_out [] = []
as_out (num n ∷ vs) = as_out vs
as_out (Value.html h ∷ vs) = html h ∷ as_out vs

unfoldable pub replay : List ℕ → Agent → M Agent
replay [] a = pure a
replay (c ∷ cs) a = do
  notes ← on_redis (λ s now. Pending.drain now c a.user.pk)
  replay cs (record a { line = send_all (as_out notes) a.line })

abbrev pub opened : ℕ → ℕ → User → Agent
opened second at user = record {
  user = user;
  limiter = fresh second 30 5 at;
  joined = [];
  line = group_add (agent_group user.pk) (record { groups = []; out = [] });
}

abbrev pub open_socket : ℕ → ℕ → User → M (Option Agent)
open_socket second at user = do
  held ← gets (held_ids user.pk)
  on_redis (λ s now. socket_opened s now user.pk)
  still_here user.pk
  a ← replay held (join_all held (opened second at user))
  pure (some a)

-- `none` is a connection that was closed: nobody is signed in, or the role is none of staff's.
unfoldable pub connect : Option User → ℕ → ℕ → M (Option Agent)
unfolding still_here replay join_all
connect none second at = pure none
connect (some user) second at =
    if is_staff_role user.role then open_socket second at user else pure none

unfoldable pub disconnect : Agent → M Agent
unfolding leave_all
disconnect a = do
  on_redis (λ s now. socket_closed a.user.pk)
  pure (leave_all a.joined (record a { line = group_discard (agent_group a.user.pk) a.line }))
