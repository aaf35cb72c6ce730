-- ===== src/Chat/Redis/Live.antt =====
-- The store as its clients see it: a hash is there until its time comes, and reads change
-- nothing that a client can see by reading.
use azm_crm.Prelude.{
  ℕ, ◌≤◌, ◌<◌, Option, none, some, true, [], if◌then◌else◌, is_some, or_else, ◌≡◌, ap, arith,
  Bool-cases, inl, inr,
}
use azm_crm.Chat.Redis.Keys.{Key, Hash, key_eq, presence, visitor, agent, merge}
use azm_crm.Chat.Redis.{Redis, is_due, alive, hgetall, exists, expire, delete, hset}

unfoldable pub live : ℕ → Key → Redis → Option Hash
live now k r = if is_due now (r.expiry k) then none else r.hashes k

pub key_eq_refl : (k : Key) → key_eq k k ≡ true
key_eq_refl (presence a) = ground arith
key_eq_refl (Key.live a visitor) = ground arith
key_eq_refl (Key.live a agent) = ground arith
key_eq_refl _ = ground arith

pub key_eq_sound : (k j : Key) → key_eq k j ≡ true → k ≡ j
key_eq_sound (presence a) (presence b) h = ground arith
key_eq_sound (Key.live a visitor) (Key.live b visitor) h = ground arith
key_eq_sound (Key.live a agent) (Key.live b agent) h = ground arith
key_eq_sound _ _ h = ground arith

-- A read answers by what is live, and leaves every key's live hash as it was.
pub alive_lem : (now : ℕ) (k : Key) (r : Redis) → (alive now k r).0 ≡ is_some (live now k r)
unfolding alive live
alive_lem now k r = ground arith

pub live-alive : (now : ℕ) (k j : Key) (r : Redis) → live now j (alive now k r).1 ≡ live now j r
unfolding alive live
live-alive now k j r = elim (Bool-cases (key_eq k j)) [
  | inl e ↦ ground (arith, ap r.expiry (key_eq_sound k j e))
  | inr e ↦ ground arith
]

pub hgetall_lem : (now : ℕ) (k : Key) (r : Redis) → (hgetall now k r).0 ≡ or_else (live now k r) []
unfolding hgetall live
hgetall_lem now k r = ground arith

pub live-hgetall : (now : ℕ) (k j : Key) (r : Redis) → live now j (hgetall now k r).1 ≡ live now j r
unfolding hgetall
live-hgetall now k j r = live-alive now k j r

pub live-exists : (now : ℕ) (k j : Key) (r : Redis) → live now j (exists now k r).1 ≡ live now j r
unfolding exists
live-exists now k j r = live-alive now k j r

-- Writing a hash and then giving it time to live makes it live, with the fields of the write over
-- those that the store still holds, and touches no other key.
pub live-hset-expire :
    (now seconds : ℕ) (k j : Key) (values : Hash) (r : Redis)
    → 0 < seconds
    → live now j (expire now k seconds (hset k values r).1).1
      ≡ (if key_eq k j then some (merge (or_else (r.hashes k) []) values) else live now j r)
unfolding live expire hset
live-hset-expire now seconds k j values r h = ground (arith, key_eq_refl k)

pub live-delete :
    (now : ℕ) (k j : Key) (r : Redis)
    → live now j (delete k r).1 ≡ (if key_eq k j then none else live now j r)
unfolding live delete
live-delete now k j r = ground arith

-- A key that is live is held under that hash.
pub live_held :
    (now : ℕ) (k : Key) {h : Hash} (r : Redis) → live now k r ≡ some h → r.hashes k ≡ some h
unfolding live
live_held now k r e = ground arith

-- Nothing is live for ever: a key with a time to live is gone once that time has come, whatever
-- reads were made of it.
pub live_ends :
    (now t : ℕ) (k : Key) (r : Redis) → r.expiry k ≡ some t → t ≤ now → live now k r ≡ none
unfolding live
live_ends now t k r e h = ground arith

-- `expire` tests whether the store holds the key, and not whether the key is live. So it brings a
-- hash back whose time has come and that no read has purged.
pub expire_revives :
    (now seconds : ℕ) (k : Key) {h : Hash} (r : Redis)
    → 0 < seconds
    → r.hashes k ≡ some h
    → live now k r ≡ none
    → ((expire now k seconds r).0 ≡ true) × (live now k (expire now k seconds r).1 ≡ some h)
unfolding live expire
expire_revives now seconds k r p held gone = ground (arith, key_eq_refl k)
