-- ===== src/Chat/Presence.antt =====
-- apps/chat/services/presence.py: which agents are online, and with how much room. Each call is
-- an action on the store, at a moment.
pub mod Roster
pub mod Reads
pub mod Capacity
use azm_crm.Prelude.{
  ℕ, zero, suc, ◌+◌, ◌-◌, ◌*◌, Option, none, some, Bool, true, false, List, [], ◌∷◌, if◌then◌else◌,
  leb, ltb, ◌&&◌,
}
use azm_crm.Chat.Settings.{Settings}
use azm_crm.Chat.Redis.Keys.{
  Key, presence, socket, Field, capacity, active, is_open, Value, num, Hash, get_int,
}
use azm_crm.Chat.Redis.{
  Redis, Action, ◌>>=◌, ◌>>◌, pure, hset, hgetall, expire, exists, delete, force_expire, flushall,
}

-- `capacity or default`: none and zero both take the default.
abbrev pub or_default : Settings → Option ℕ → ℕ
or_default s none = s.default_capacity
or_default s (some zero) = s.default_capacity
or_default s (some (suc n)) = suc n

unfoldable pub go_online : Settings → ℕ → ℕ → Option ℕ → Action Bool
go_online s now user room = do
  hset (presence user) ((capacity, num (or_default s room)) ∷ (active, num 0) ∷ [])
  expire now (presence user) s.presence_ttl

unfoldable pub go_offline : ℕ → Action (Unit {0})
go_offline user = delete (presence user)

unfoldable pub heartbeat : Settings → ℕ → ℕ → Action Bool
heartbeat s now user = expire now (presence user) s.presence_ttl

unfoldable pub is_online : ℕ → ℕ → Action Bool
is_online now user = exists now (presence user)

abbrev pub read_slots : Hash → Option (ℕ × ℕ)
read_slots [] = none
read_slots (e ∷ h) = some (get_int capacity (e ∷ h), get_int active (e ∷ h))

-- `_state`
unfoldable pub state : ℕ → ℕ → Action (Option (ℕ × ℕ))
state now user = do raw ← hgetall now (presence user); pure (read_slots raw)

-- `max(0, capacity - active)`: subtraction on ℕ stops at 0.
abbrev pub room_in : Option (ℕ × ℕ) → ℕ
room_in none = 0
room_in (some (c, a)) = c - a

unfoldable pub capacity_remaining : ℕ → ℕ → Action ℕ
unfolding state
capacity_remaining now user = do st ← state now user; pure (room_in st)

unfoldable pub has_capacity : ℕ → ℕ → Action Bool
unfolding capacity_remaining
has_capacity now user = do n ← capacity_remaining now user; pure (ltb 0 n)

-- The write that a claim and a release end with.
unfoldable pub set_active : Settings → ℕ → ℕ → ℕ → Action Bool
set_active s now user a = do
  hset (presence user) ((active, num a) ∷ [])
  expire now (presence user) s.presence_ttl

abbrev pub claim_from : Settings → ℕ → ℕ → Option (ℕ × ℕ) → Action Bool
claim_from s now user none = pure false
claim_from s now user (some (c, a)) =
    if leb c a then pure false else (do set_active s now user (a + 1); pure true)

unfoldable pub claim_slot : Settings → ℕ → ℕ → Action Bool
claim_slot s now user = do st ← state now user; claim_from s now user st

-- `max(0, active - 1)`: subtraction on ℕ stops at 0.
abbrev pub release_from : Settings → ℕ → ℕ → Option (ℕ × ℕ) → Action (Unit {0})
release_from s now user none = pure tt
release_from s now user (some (c, a)) = do set_active s now user (a - 1); pure tt

unfoldable pub release_slot : Settings → ℕ → ℕ → Action (Unit {0})
release_slot s now user = do st ← state now user; release_from s now user st

-- `is_online(uid) and has_capacity(uid)`: the second is asked only after the first.
unfoldable pub is_free : ℕ → ℕ → Action Bool
is_free now user = do
  online ← is_online now user
  if online then has_capacity now user else pure false

unfoldable pub agents_with_capacity : ℕ → List ℕ → Action (List ℕ)
agents_with_capacity now [] = pure []
agents_with_capacity now (u ∷ us) = do
  free ← is_free now u
  rest ← agents_with_capacity now us
  pure (if free then u ∷ rest else rest)

-- `any(...)` stops at the first that is online.
unfoldable pub anyone_online : ℕ → List ℕ → Action Bool
anyone_online now [] = pure false
anyone_online now (u ∷ us) = do
  online ← is_online now u
  let rest = anyone_online now us
  if online then pure true else rest

abbrev pub active_in : Option (ℕ × ℕ) → ℕ
active_in none = 0
active_in (some (c, a)) = a

unfoldable pub active_count : ℕ → ℕ → Action ℕ
active_count now user = do st ← state now user; pure (active_in st)

unfoldable pub socket_opened : Settings → ℕ → ℕ → Action Bool
socket_opened s now user = do
  hset (socket user) ((is_open, num 1) ∷ [])
  expire now (socket user) (s.presence_ttl * 4)

unfoldable pub socket_closed : ℕ → Action (Unit {0})
socket_closed user = delete (socket user)

unfoldable pub has_socket : ℕ → ℕ → Action Bool
has_socket now user = exists now (socket user)

-- `reset_for_tests`: the client is there already.
unfoldable pub reset_for_tests : Action (Unit {0})
reset_for_tests = flushall

unfoldable pub expire_now_for_tests : ℕ → Action (Unit {0})
expire_now_for_tests user = force_expire (presence user)
