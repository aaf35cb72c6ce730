-- ===== src/Chat/Queue.antt =====
-- apps/chat/services/queue.py: the visitors who wait, one sorted set for each department and
-- branch, scored by the moment of arrival. A token is the number of a conversation. What a call
-- publishes is in Chat/Serving.antt.
pub mod Order
pub mod Fifo
use azm_crm.Prelude.{
  ℕ, suc, ◌+◌, Option, none, some, List, [], ◌∷◌, Bool, true, false, if◌then◌else◌, is_some,
}
use azm_crm.Chat.Redis.Keys.{Key, queue}
use azm_crm.Chat.Redis.{
  Redis, Action, ◌>>=◌, ◌>>◌, pure, Range, only_head, whole, zrange, zscore, zrank, zcard, zadd,
  zrem,
}

abbrev join_at : ℕ → Key → ℕ → Option ℕ → Action (Unit {0})
join_at now key token none = zadd key token now
join_at now key token (some _) = pure tt

unfoldable pub join : ℕ → ℕ → ℕ → ℕ → Action (Unit {0})
join now token department branch = do
  rank ← zrank (queue department branch) token
  join_at now (queue department branch) token rank

unfoldable pub leave : ℕ → ℕ → ℕ → Action (Unit {0})
leave token department branch = zrem (queue department branch) token

abbrev one_based : Option ℕ → Option ℕ
one_based none = none
one_based (some rank) = some (rank + 1)

unfoldable pub position : ℕ → ℕ → ℕ → Action (Option ℕ)
position token department branch = do
  rank ← zrank (queue department branch) token
  pure (one_based rank)

unfoldable pub waiting_count : ℕ → ℕ → Action ℕ
waiting_count department branch = zcard (queue department branch)

abbrev peek_at : Key → List ℕ → Action (Option (ℕ × Option ℕ))
peek_at key [] = pure none
peek_at key (token ∷ _) = do score ← zscore key token; pure (some (token, score))

-- The token and its score; `none` stands for the pair of two `None`s.
unfoldable pub peek : ℕ → ℕ → Action (Option (ℕ × Option ℕ))
peek department branch = do
  head ← zrange (queue department branch) only_head
  peek_at (queue department branch) head

abbrev take_at : Key → List ℕ → Action (Option ℕ)
take_at key [] = pure none
take_at key (token ∷ _) = do zrem key token; pure (some token)

unfoldable pub take_next : ℕ → ℕ → Action (Option ℕ)
take_next department branch = do
  head ← zrange (queue department branch) only_head
  take_at (queue department branch) head

-- `zrem(key, *waiting)`
unfoldable pub zrem_all : Key → List ℕ → Action (Unit {0})
zrem_all key [] = pure tt
zrem_all key (m ∷ ms) = do zrem key m; zrem_all key ms

unfoldable pub drain : ℕ → ℕ → Action (List ℕ)
drain department branch = do
  waiting ← zrange (queue department branch) whole
  zrem_all (queue department branch) waiting
  pure waiting
