-- ===== src/Chat/Presence/Roster.antt =====
-- What presence promises, without the store: a roster gives each agent who is online a capacity
-- and the number of conversations held. About apps/chat/services/presence.py.
use azm_crm.Prelude.{
  ℕ, ◌+◌, ◌-◌, ◌<◌, Option, none, some, Bool, true, false, [], ◌∷◌, if◌then◌else◌, leb, ltb, ◌==◌,
  ◌≡◌, refl, ap, fun_ext, arith, or_else, Bool-cases, Option-cases, inl, inr,
}
use azm_crm.Chat.Settings.{Settings}
use azm_crm.Chat.Redis.Keys.{presence, capacity, active, num, Hash, insert, get_int}
use azm_crm.Chat.Redis.{Redis}
use azm_crm.Chat.Redis.Live.{live, live-hgetall, hgetall_lem, live-hset-expire, live_held}
use azm_crm.Chat.Presence.{
  read_slots, state, set_active, claim_slot, release_slot, go_online, or_default, claim_from,
  release_from,
}

-- What the store says of an agent at a moment.
unfoldable pub slots : ℕ → Redis → ℕ → Option (ℕ × ℕ)
slots now r user = read_slots (or_else (live now (presence user) r) [])

abbrev pub Roster : Type 0
Roster = ℕ → Option (ℕ × ℕ)

abbrev pub assign_slot : ℕ → Option (ℕ × ℕ) → Roster → Roster
assign_slot u s ρ v = if u == v then s else ρ v

abbrev claim_in : ℕ → Option (ℕ × ℕ) → Roster → Bool × Roster
claim_in u none ρ = (false, ρ)
claim_in u (some (c, a)) ρ =
    if ltb a c then (true, assign_slot u (some (c, a + 1)) ρ) else (false, ρ)

-- Take a slot of an agent who has one left.
abbrev pub claim : ℕ → Roster → Bool × Roster
claim u ρ = claim_in u (ρ u) ρ

abbrev release_in : ℕ → Option (ℕ × ℕ) → Roster → Roster
release_in u none ρ = ρ
release_in u (some (c, a)) ρ = assign_slot u (some (c, a - 1)) ρ

-- Give a slot back.
abbrev pub release : ℕ → Roster → Roster
release u ρ = release_in u (ρ u) ρ

get_active-insert : (a : ℕ) (h : Hash) → get_int active (insert active (num a) h) ≡ a
get_active-insert a [] = refl
get_active-insert a ((f, w) ∷ h) = ground (arith, get_active-insert a h)

get_capacity-insert :
    (a : ℕ) (h : Hash) → get_int capacity (insert active (num a) h) ≡ get_int capacity h
get_capacity-insert a [] = refl
get_capacity-insert a ((f, w) ∷ h) = ground (arith, get_capacity-insert a h)

read_slots-insert :
    (a c b : ℕ) (h : Hash)
    → read_slots h ≡ some (c, b)
    → read_slots (insert active (num a) h) ≡ some (c, a)
read_slots-insert a c b [] e = cc
read_slots-insert a c b (x ∷ h) e =
    ground (arith, get_active-insert a (x ∷ h), get_capacity-insert a (x ∷ h))

get_capacity-insert_self : (c : ℕ) (h : Hash) → get_int capacity (insert capacity (num c) h) ≡ c
get_capacity-insert_self c [] = refl
get_capacity-insert_self c ((f, w) ∷ h) = ground (arith, get_capacity-insert_self c h)

read_slots-insert_capacity :
    (c : ℕ) (h : Hash)
    → read_slots (insert capacity (num c) h) ≡ some (c, get_int active (insert capacity (num c) h))
read_slots-insert_capacity c [] = refl
read_slots-insert_capacity c (x ∷ h) = ground (arith, get_capacity-insert_self c (x ∷ h))

fresh :
    (c : ℕ) (h : Hash)
    → read_slots (insert active (num 0) (insert capacity (num c) h)) ≡ some (c, 0)
fresh c h = read_slots-insert 0 c _ (insert capacity (num c) h) (read_slots-insert_capacity c h)

pub state_lem : (now user : ℕ) (r : Redis) → (state now user r).0 ≡ slots now r user
unfolding state slots
state_lem now user r = ap read_slots (hgetall_lem now (presence user) r)

slots-state : (now user v : ℕ) (r : Redis) → slots now (state now user r).1 v ≡ slots now r v
unfolding state slots
slots-state now user v r =
    ap (λ h. read_slots (or_else h [])) (live-hgetall now (presence user) (presence v) r)

-- Writing the number held by an agent who is online changes that number and nothing else.
slots-set_active :
    (s : Settings) (now user a c b v : ℕ) (r : Redis)
    → 0 < s.presence_ttl
    → slots now r user ≡ some (c, b)
    → slots now (set_active s now user a r).1 v ≡ assign_slot user (some (c, a)) (slots now r) v
unfolding slots set_active
slots-set_active s now user a c b v r pos e = elim (Option-cases (live now (presence user) r)) [
  | inl gone ↦ cc (gone, e)
  | inr (h, l) ↦
      rw
        (live-hset-expire now s.presence_ttl (presence user) (presence v) ((active, num a) ∷ []) r
          pos)
        (ground (arith, live_held now (presence user) r l, l, e, read_slots-insert a c b h))
]

state-roster : (now user : ℕ) (r : Redis) → slots now (state now user r).1 ≡ slots now r
state-roster now user r = fun_ext (λ v. slots-state now user v r)

module _ (s : Settings) (now user : ℕ) (pos : 0 < s.presence_ttl) where
  claim_from_lem :
      (st : Option (ℕ × ℕ)) (r : Redis)
      → slots now r user ≡ st
      → ((claim_from s now user st r).0 ≡ (claim_in user st (slots now r)).0)
        × ((v : ℕ)
            → slots now (claim_from s now user st r).1 v ≡ (claim_in user st (slots now r)).1 v)
  claim_from_lem none r e = (refl, λ v. refl)
  claim_from_lem (some (c, a)) r e = elim (Bool-cases (leb c a)) [
    | inl full ↦ (ground arith, λ v. ground arith)
    | inr free ↦
        (ground arith, λ v. ground (arith, slots-set_active s now user (a + 1) c a v r pos e))
  ]

  release_from_lem :
      (st : Option (ℕ × ℕ)) (r : Redis) (v : ℕ)
      → slots now r user ≡ st
      → slots now (release_from s now user st r).1 v ≡ release_in user st (slots now r) v
  release_from_lem none r v e = refl
  release_from_lem (some (c, a)) r v e = slots-set_active s now user (a - 1) c a v r pos e

  -- With a positive presence TTL, `claim_slot` answers as a claim on the roster does, and the
  -- store then shows, for every agent, what that claim leaves.
  pub claim_slot-refines :
      (r : Redis)
      → ((claim_slot s now user r).0 ≡ (claim user (slots now r)).0)
        × ((v : ℕ) → slots now (claim_slot s now user r).1 v ≡ (claim user (slots now r)).1 v)
  unfolding claim_slot
  claim_slot-refines r =
      rw (state_lem now user r, ← state-roster now user r)
        (claim_from_lem (slots now (state now user r).1 user) (state now user r).1 refl)

  -- With a positive presence TTL, the store shows after `release_slot`, for every agent, what a
  -- release on the roster leaves.
  pub release_slot-refines :
      (r : Redis) (v : ℕ) → slots now (release_slot s now user r).1 v ≡ release user (slots now r) v
  unfolding release_slot
  release_slot-refines r v =
      rw (state_lem now user r, ← state-roster now user r)
        (release_from_lem (slots now (state now user r).1 user) (state now user r).1 v refl)

  pub go_online_lem :
      (r : Redis) (room : Option ℕ) (v : ℕ)
      → slots now (go_online s now user room r).1 v
        ≡ assign_slot user (some (or_default s room, 0)) (slots now r) v
  unfolding go_online slots
  go_online_lem r room v =
      rw
        (live-hset-expire now s.presence_ttl (presence user) (presence v)
          ((capacity, num (or_default s room)) ∷ (active, num 0) ∷ []) r pos)
        (ground (arith, fresh (or_default s room) (or_else (r.hashes (presence user)) [])))
