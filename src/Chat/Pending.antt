-- ===== src/Chat/Pending.antt =====
-- apps/chat/services/pending.py: private notes kept for an agent whose socket is away.
use azm_crm.Prelude.{ℕ, List, [], ◌∷◌, Bool, if◌then◌else◌, leb, length}
use azm_crm.Chat.Settings.{Settings}
use azm_crm.Chat.Model.{Html}
use azm_crm.Chat.Redis.Keys.{Key, pending, Field, id, Value, html, Hash}
use azm_crm.Chat.Redis.{Action, ◌>>=◌, ◌>>◌, pure, hset, hgetall, expire, delete}

unfoldable pub hold : Settings → ℕ → ℕ → ℕ → ℕ → Html → Action Bool
hold s now conversation agent message note = do
  hset (pending conversation agent) ((id message, html note) ∷ [])
  expire now (pending conversation agent) s.reconnect_grace

-- `int(item[0])`: every field of such a hash is the number of a message.
abbrev pub number : Field → ℕ
number (id n) = n
number _ = 0

abbrev pub place_note : Field × Value → Hash → Hash
place_note e [] = e ∷ []
place_note e (d ∷ h) =
    let rest = d ∷ place_note e h in if leb (number e.0) (number d.0) then e ∷ d ∷ h else rest

-- `sorted(held.items(), key=lambda item: int(item[0]))`
unfoldable pub by_number : Hash → Hash
by_number [] = []
by_number (e ∷ h) = place_note e (by_number h)

abbrev pub notes : Hash → List Value
notes [] = []
notes ((_, v) ∷ h) = v ∷ notes h

abbrev drain_held : Key → Hash → Action (List Value)
drain_held k [] = pure []
drain_held k (e ∷ h) = do delete k; pure (notes (by_number (e ∷ h)))

unfoldable pub drain : ℕ → ℕ → ℕ → Action (List Value)
drain now conversation agent = do
  held ← hgetall now (pending conversation agent)
  drain_held (pending conversation agent) held

unfoldable pub waiting : ℕ → ℕ → ℕ → Action ℕ
waiting now conversation agent = do
  held ← hgetall now (pending conversation agent)
  pure (length held)

unfoldable pub forget : ℕ → ℕ → Action (Unit {0})
forget conversation agent = delete (pending conversation agent)
