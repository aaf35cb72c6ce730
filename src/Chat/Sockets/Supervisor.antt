-- ===== src/Chat/Sockets/Supervisor.antt =====
-- apps/chat/consumers/supervisor.py: the socket of somebody who watches a conversation. It hears
-- the staff group, and writes private notes only.
pub mod Silence
use azm_crm.Prelude.{
  ℕ, ◌+◌, String, Option, none, some, Bool, true, false, ◌||◌, ◌&&◌, not, ◌==◌, List, [], ◌∷◌, ◌++◌,
  if◌then◌else◌, update_where, is_some,
}
use azm_crm.Chat.Model.{
  Conversation, User, Role, agent, supervisor, administrator, Group, staff_group, observing,
  departed, Observation,
}
use azm_crm.Chat.Messaging.{whisper, broadcast_system}
use azm_crm.Chat.World.{World, M, Result, ok, ◌>>=◌, ◌>>◌, pure, raise, gets, bad_value}
use azm_crm.Chat.Sockets.Wire.{
  Json, null, str, Fields, Wire, parse, get, is_text, is_hashable, body_text,
}
use azm_crm.Chat.Sockets.Limiter.{Limiter, fresh, allow}
use azm_crm.Chat.Sockets.{event, throttled, refused, Line, group_add, group_discard, send}
use azm_crm.Chat.Sockets.Agent.Frames.{find_scoped}

-- `observation` is the number of the row that was opened.
pub record Supervisor : Type 0 where
  pub user : User
  pub conversation : Conversation
  pub observation : ℕ
  pub limiter : Limiter
  pub line : Line

-- `OBSERVER_ROLES`
abbrev pub is_observer_role : Role → Bool
is_observer_role agent = false
is_observer_role supervisor = true
is_observer_role administrator = true

-- `_authorize`
unfoldable pub authorize : User → Option ℕ → World → Option Conversation
unfolding find_scoped
authorize user none w = none
authorize user (some pk) w = find_scoped user pk w

-- `_open_observation`
unfoldable pub open_observation : ℕ → ℕ → M ℕ
open_observation conversation observer w =
    let row : Observation = record {
      pk = w.next_pk;
      conversation = conversation;
      observer = observer;
      started_at = w.now;
      ended_at = none;
    } in
    (ok w.next_pk, record w { observations = w.observations ++ row ∷ []; next_pk = w.next_pk + 1 })

abbrev pub closed_at : ℕ → Observation → Observation
closed_at now o = record o { ended_at = some now }

-- `_close_observation`
unfoldable pub close_observation : ℕ → M (Unit {0})
close_observation pk w = (
  ok tt,
  record w {
    observations =
        update_where (λ o. o.pk == pk && not (is_some o.ended_at)) (closed_at w.now) w.observations;
  },
)

abbrev pub watching : ℕ → ℕ → User → Conversation → ℕ → Supervisor
watching second at user c row = record {
  user = user;
  conversation = c;
  observation = row;
  limiter = fresh second 20 4 at;
  line = group_add (staff_group c.pk) (record { groups = []; out = [] });
}

abbrev pub watch : ℕ → ℕ → User → Option Conversation → M (Option Supervisor)
watch second at user none = pure none
watch second at user (some c) = do
  row ← open_observation c.pk user.pk
  broadcast_system c (observing user.full_name) true
  pure (some (watching second at user c row))

abbrev watch_named : User → Option ℕ → ℕ → ℕ → M (Option Supervisor)
watch_named user wanted second at = do
  found ← gets (authorize user wanted)
  watch second at user found

-- The number that the query string names, if `int` reads one; `none` for a closed connection.
unfoldable pub connect : Option User → Option ℕ → ℕ → ℕ → M (Option Supervisor)
unfolding authorize open_observation
connect none wanted second at = pure none
connect (some user) wanted second at =
    if is_observer_role user.role then watch_named user wanted second at else pure none

unfoldable pub disconnect : Supervisor → M Supervisor
unfolding close_observation
disconnect v = do
  broadcast_system v.conversation (departed v.user.full_name) true
  close_observation v.observation
  pure (record v { line = group_discard (staff_group v.conversation.pk) v.line })

-- `CUSTOMER_DIRECTED`
abbrev pub is_customer_directed : Json → Bool
is_customer_directed kind = is_text "message" kind || is_text "typing" kind || is_text "close" kind

-- `_whisper`
unfoldable pub record_whisper : Wire → Json → Supervisor → M Supervisor
record_whisper wire text v = do
  body ← body_text wire text
  result ← whisper v.conversation v.user.pk body
  pure (record v { conversation = result.1 })

unfoldable pub handle : Wire → Fields → Supervisor → M Supervisor
unfolding record_whisper
handle wire payload v =
    let kind = get "type" null payload in
    if not (is_hashable kind)
    then raise bad_value
    else if is_customer_directed kind
    then pure (record v { line = send (event refused) v.line })
    else if is_text "whisper" kind
    then record_whisper wire (get "text" (str "") payload) v
    else pure v

abbrev pub handle_if : Wire → Fields → Supervisor → Bool × Limiter → M Supervisor
handle_if wire payload v (false, l) =
    pure (record v { limiter = l; line = send (event throttled) v.line })
handle_if wire payload v (true, l) = handle wire payload (record v { limiter = l })

unfoldable pub receive : Wire → ℕ → Option String → Supervisor → M Supervisor
unfolding handle
receive wire at frame v = handle_if wire (parse wire frame) v (allow at v.limiter)
