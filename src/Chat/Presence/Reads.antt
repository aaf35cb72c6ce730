-- ===== src/Chat/Presence/Reads.antt =====
-- About the reads of apps/chat/services/presence.py: what they answer, and what they leave.
use azm_crm.Prelude.{
  ℕ, List, [], ◌∷◌, ltb, ◌≡◌, refl, ap, arith, keep, any, is_some, or_else, Bool-cases, inl, inr,
  fun_ext, ◌∙◌,
}
use azm_crm.Chat.Redis.Keys.{Key, presence}
use azm_crm.Chat.Redis.{Redis, exists, hgetall, alive}
use azm_crm.Chat.Redis.Live.{live, live-exists, live-hgetall, alive_lem}
use azm_crm.Chat.Presence.{
  is_online, state, read_slots, room_in, has_capacity, is_free, agents_with_capacity, anyone_online,
}
use azm_crm.Chat.Presence.Roster.{slots, state_lem}

-- Two stores that no read tells apart: the same hashes are live, and the queues are the same.
pub record Alike (now : ℕ) (r r' : Redis) : Type 0 where
  pub hashes : (k : Key) → live now k r' ≡ live now k r
  pub zsets : r'.zsets ≡ r.zsets

pub Alike-refl : (now : ℕ) (r : Redis) → Alike now r r
Alike-refl now r = record { hashes = λ k. refl; zsets = refl }

pub Alike-trans : (now : ℕ) (r r' r'' : Redis) → Alike now r r' → Alike now r' r'' → Alike now r r''
Alike-trans now r r' r'' a b = record {
  hashes = λ k. b.hashes k ∙ a.hashes k;
  zsets = b.zsets ∙ a.zsets;
}

alive-Alike : (now : ℕ) (k : Key) (r : Redis) → Alike now r (exists now k r).1
alive-Alike now k r = record {
  hashes = λ j. live-exists now k j r;
  zsets = unfold exists alive in ground arith;
}

hgetall-Alike : (now : ℕ) (k : Key) (r : Redis) → Alike now r (hgetall now k r).1
hgetall-Alike now k r = record {
  hashes = λ j. live-hgetall now k j r;
  zsets = unfold hgetall alive in ground arith;
}

pub slots-Alike : (now : ℕ) (r r' : Redis) (u : ℕ) → Alike now r r' → slots now r' u ≡ slots now r u
unfolding slots
slots-Alike now r r' u a = ap (λ h. read_slots (or_else h [])) (a.hashes (presence u))

is_online_lem :
    (now user : ℕ) (r : Redis) → (is_online now user r).0 ≡ is_some (live now (presence user) r)
unfolding is_online exists
is_online_lem now user r = alive_lem now (presence user) r

has_capacity_lem :
    (now user : ℕ) (r : Redis) → (has_capacity now user r).0 ≡ ltb 0 (room_in (slots now r user))
unfolding has_capacity
has_capacity_lem now user r = ap (λ st. ltb 0 (room_in st)) (state_lem now user r)

pub state-Alike : (now user : ℕ) (r : Redis) → Alike now r (state now user r).1
unfolding state
state-Alike now user r = hgetall-Alike now (presence user) r

is_online-Alike : (now user : ℕ) (r : Redis) → Alike now r (is_online now user r).1
unfolding is_online
is_online-Alike now user r = alive-Alike now (presence user) r

pub has_capacity-Alike : (now user : ℕ) (r : Redis) → Alike now r (has_capacity now user r).1
unfolding has_capacity
has_capacity-Alike now user r = state-Alike now user r

-- An agent counts as free exactly when the roster shows room.
pub is_free_lem :
    (now user : ℕ) (r : Redis) → (is_free now user r).0 ≡ ltb 0 (room_in (slots now r user))
unfolding is_free slots
is_free_lem now user r =
    let asked : Redis = (is_online now user r).1 in
    ground (
      arith,
      is_online_lem now user r,
      has_capacity_lem now user asked,
      is_online-Alike now user r,
      slots-Alike now r asked user (is_online-Alike now user r),
    )

pub is_free-Alike : (now user : ℕ) (r : Redis) → Alike now r (is_free now user r).1
unfolding is_free
is_free-Alike now user r =
    let asked : Redis = (is_online now user r).1 in
    let after : Alike now r asked = is_online-Alike now user r in
    elim (Bool-cases (is_online now user r).0) [
      | inl e ↦ rw e (
          Alike-trans now r asked (has_capacity now user asked).1 after
            (has_capacity-Alike now user asked))
      | inr e ↦ rw e after
    ]

-- `agents_with_capacity` gives those of the list, in its order, for whom the store shows room,
-- and the reading changes no key that is live and no queue.
pub agents_with_capacity_lem :
    (now : ℕ) (us : List ℕ) (r : Redis)
    → ((agents_with_capacity now us r).0 ≡ keep (λ u. ltb 0 (room_in (slots now r u))) us)
      × Alike now r (agents_with_capacity now us r).1
unfolding agents_with_capacity
agents_with_capacity_lem now [] r = (refl, Alike-refl now r)
agents_with_capacity_lem now (u ∷ us) r =
    let asked : Redis = (is_free now u r).1 in
    let first : Alike now r asked = is_free-Alike now u r in
    let rest = agents_with_capacity_lem now us asked in
    let same : slots now asked ≡ slots now r = fun_ext (λ v. slots-Alike now r asked v first) in
    (
      rw (is_free_lem now u r, rest.0, same),
      Alike-trans now r asked (agents_with_capacity now us asked).1 first rest.1,
    )

-- `anyone_online` is true exactly when the presence key of one of the list is live, and the
-- reading changes no key that is live and no queue.
pub anyone_online_lem :
    (now : ℕ) (us : List ℕ) (r : Redis)
    → ((anyone_online now us r).0 ≡ any (λ u. is_some (live now (presence u) r)) us)
      × Alike now r (anyone_online now us r).1
unfolding anyone_online
anyone_online_lem now [] r = (refl, Alike-refl now r)
anyone_online_lem now (u ∷ us) r =
    let asked : Redis = (is_online now u r).1 in
    let first : Alike now r asked = is_online-Alike now u r in
    let rest = anyone_online_lem now us asked in
    let same : (λ (v : ℕ). is_some (live now (presence v) asked))
        ≡ (λ v. is_some (live now (presence v) r)) =
      fun_ext (λ v. ap is_some (first.hashes (presence v))) in
    elim (Bool-cases (is_online now u r).0) [
      | inl e ↦ (rw (e, ← is_online_lem now u r, e), rw e first)
      | inr e ↦ (
        rw (e, ← is_online_lem now u r, e, rest.0, same),
        rw e (Alike-trans now r asked (anyone_online now us asked).1 first rest.1),
      )
    ]
