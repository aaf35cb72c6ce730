-- ===== src/Chat/Unread.antt =====
-- apps/chat/services/unread.py: how many messages an agent has not read, by conversation.
use azm_crm.Prelude.{ℕ, ◌+◌, List, [], ◌∷◌, if◌then◌else◌, ◌==◌}
use azm_crm.Chat.Pending.{number}
use azm_crm.Chat.Redis.Keys.{Key, unread, id, num, Hash, get_int, pop, to_int}
use azm_crm.Chat.Redis.{Action, ◌>>=◌, ◌>>◌, pure, hset, hgetall, delete}

unfoldable pub count : ℕ → ℕ → ℕ → Action ℕ
count now user conversation = do
  raw ← hgetall now (unread user)
  pure (get_int (id conversation) raw)

unfoldable pub mark : ℕ → ℕ → ℕ → Action (Unit {0})
mark now user conversation = do
  current ← count now user conversation
  hset (unread user) ((id conversation, num (current + 1)) ∷ [])

abbrev pub write_back : Key → Hash → Action (Unit {0})
write_back k [] = pure tt
write_back k (e ∷ h) = hset k (e ∷ h)

unfoldable pub clear : ℕ → ℕ → ℕ → Action (Unit {0})
clear now user conversation = do
  counts ← hgetall now (unread user)
  delete (unread user)
  write_back (unread user) (pop (id conversation) counts)

-- `clear` for a number that no conversation has: nothing is taken out of the hash.
unfoldable pub clear_nothing : ℕ → ℕ → Action (Unit {0})
clear_nothing now user = do
  counts ← hgetall now (unread user)
  delete (unread user)
  write_back (unread user) counts

-- `all_for`: the counts that are not zero, by conversation.
abbrev pub nonzero : Hash → List (ℕ × ℕ)
nonzero [] = []
nonzero ((f, v) ∷ h) =
    let rest = nonzero h in if to_int v == 0 then rest else (number f, to_int v) ∷ rest

unfoldable pub all_for : ℕ → ℕ → Action (List (ℕ × ℕ))
all_for now user = do raw ← hgetall now (unread user); pure (nonzero raw)

unfoldable pub forget : ℕ → ℕ → List ℕ → Action (Unit {0})
forget now conversation [] = pure tt
forget now conversation (u ∷ us) = do clear now u conversation; forget now conversation us
