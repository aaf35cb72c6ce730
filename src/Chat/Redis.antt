-- ===== src/Chat/Redis.antt =====
-- apps/chat/services/redis_client.py: the in-process store `FakeRedis`. A dictionary is a
-- function from keys; the time of a call, `time.monotonic()`, is its first argument. Every
-- operation is an action on the store, reads too, since a read purges a key whose time has come.
pub mod Keys
pub mod Sorted
pub mod Live
use azm_crm.Prelude.{
  ℕ, suc, ◌+◌, String, Option, none, some, Bool, true, false, List, [], ◌∷◌, if◌then◌else◌, leb,
  ltb, ◌==◌, is_some, or_else, length, map,
}
use Keys.{Key, Field, Value, Hash, key_eq, merge}
use Sorted.{ZSet, ordered, zput, zdrop, zfind, members, index_of}

pub record Redis : Type 0 where
  pub hashes : Key → Option Hash
  pub expiry : Key → Option ℕ
  pub zsets : Key → List (ℕ × ℕ)

abbrev pub Action : Type 0 → Type 0
Action A = Redis → A × Redis

infixl 5 ◌>>=◌ ◌>>◌
abbrev pub ◌>>=◌ : {A B : Type 0} → Action A → (A → Action B) → Action B
◌>>=◌ m f r = let (a, r') = m r in f a r'

abbrev pub ◌>>◌ : {A B : Type 0} → Action A → Action B → Action B
m >> k = m >>= λ _. k

abbrev pub pure : {A : Type 0} → A → Action A
pure a r = (a, r)

abbrev pub put {ℓ} : {A : Type ℓ} → Key → A → (Key → A) → Key → A
put k a m j = if key_eq k j then a else m j

abbrev pub is_due : ℕ → Option ℕ → Bool
is_due now none = false
is_due now (some t) = leb t now

abbrev pub drop_key : Key → Redis → Redis
drop_key k r = record r { hashes = put k none r.hashes; expiry = put k none r.expiry }

-- `_alive`
unfoldable pub alive : ℕ → Key → Action Bool
alive now k r = if is_due now (r.expiry k) then (false, drop_key k r) else (is_some (r.hashes k), r)

unfoldable pub expire : ℕ → Key → ℕ → Action Bool
expire now k seconds r =
    if is_some (r.hashes k)
    then (true, record r { expiry = put k (some (now + seconds)) r.expiry })
    else (false, r)

unfoldable pub force_expire : Key → Action (Unit {0})
force_expire k r = (tt, drop_key k r)

unfoldable pub hset : Key → Hash → Action (Unit {0})
hset k values r =
    (tt, record r { hashes = put k (some (merge (or_else (r.hashes k) []) values)) r.hashes })

unfoldable pub hgetall : ℕ → Key → Action Hash
unfolding alive
hgetall now k = do found ← alive now k; λ r. (if found then or_else (r.hashes k) [] else [], r)

unfoldable pub exists : ℕ → Key → Action Bool
unfolding alive
exists now k = alive now k

-- `delete` of one key; `delete(a, b)` is one after the other.
unfoldable pub delete : Key → Action (Unit {0})
delete k r = (tt, record (drop_key k r) { zsets = put k [] r.zsets })

unfoldable pub zadd : Key → ℕ → ℕ → Action (Unit {0})
zadd k member score r = (tt, record r { zsets = put k (zput member score (r.zsets k)) r.zsets })

unfoldable pub zrem : Key → ℕ → Action (Unit {0})
zrem k member r = (tt, record r { zsets = put k (zdrop member (r.zsets k)) r.zsets })

-- `zrange(key, 0, 0)`: the first member, if there is one.
abbrev pub head_of : List ℕ → List ℕ
head_of [] = []
head_of (m ∷ _) = m ∷ []

-- The two ranges that chat asks for: `0, 0` and `0, -1`.
pub data Range : Type 0 where
  only_head whole : Range

unfoldable pub zrange : Key → Range → Action (List ℕ)
zrange k only_head r = (head_of (members (ordered (r.zsets k))), r)
zrange k whole r = (members (ordered (r.zsets k)), r)

unfoldable pub zscore : Key → ℕ → Action (Option ℕ)
zscore k member r = (zfind member (r.zsets k), r)

unfoldable pub zrank : Key → ℕ → Action (Option ℕ)
zrank k member r = (index_of member (members (ordered (r.zsets k))), r)

unfoldable pub zcard : Key → Action ℕ
zcard k r = (length (r.zsets k), r)

unfoldable pub flushall : Action (Unit {0})
flushall r = (tt, record { hashes = λ _. none; expiry = λ _. none; zsets = λ _. [] })
