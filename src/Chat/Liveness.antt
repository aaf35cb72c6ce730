-- ===== src/Chat/Liveness.antt =====
-- apps/chat/services/liveness.py: a key for each party on the line, that lives as long as the
-- grace period for a reconnection.
use azm_crm.Prelude.{ℕ, Bool, not, ◌∷◌, []}
use azm_crm.Chat.Settings.{Settings}
use azm_crm.Chat.Redis.Keys.{live, Party, visitor, agent, seen, num}
use azm_crm.Chat.Redis.{Action, ◌>>=◌, ◌>>◌, pure, hset, expire, exists, delete}

unfoldable pub mark_seen : Settings → ℕ → ℕ → Party → Action Bool
mark_seen s now conversation party = do
  hset (live conversation party) ((seen, num 1) ∷ [])
  expire now (live conversation party) s.reconnect_grace

unfoldable pub present : ℕ → ℕ → Party → Action Bool
present now conversation party = exists now (live conversation party)

unfoldable pub gone : ℕ → ℕ → Party → Action Bool
gone now conversation party = do here ← present now conversation party; pure (not here)

unfoldable pub forget : ℕ → Action (Unit {0})
forget conversation = do delete (live conversation visitor); delete (live conversation agent)
