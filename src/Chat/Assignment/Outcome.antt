-- ===== src/Chat/Assignment/Outcome.antt =====
-- About `assign` of apps/chat/services/assignment.py: what it leaves behind, in the store and in
-- the table.
use azm_crm.Prelude.{
  ℕ, ◌<◌, Option, none, some, true, false, List, [], ◌∷◌, ◌==◌, ◌≡◌, refl, sym, ◌∙◌, ap, fun_ext,
  subst, arith, is_some, member, update_where, Bool-cases, inl, inr, or_else, ==_refl,
}
use azm_crm.Chat.Settings.{Settings, IsSane}
use azm_crm.Chat.Model.{Conversation}
use azm_crm.Chat.Redis.Keys.{Key, presence, Party, agent, seen, num}
use azm_crm.Chat.Redis.{Redis}
use azm_crm.Chat.Redis.Live.{live-hset-expire}
use azm_crm.Chat.Presence.{has_capacity, claim_slot, read_slots}
use azm_crm.Chat.Presence.Roster.{Roster, slots, claim, claim_slot-refines}
use azm_crm.Chat.Presence.Capacity.{release_slot-claim_slot}
use azm_crm.Chat.Presence.Reads.{has_capacity-Alike, slots-Alike}
use azm_crm.Chat.Liveness.{mark_seen}
use azm_crm.Chat.World.{World, Result, ok, raised, find_conversation}
use azm_crm.Chat.Assignment.{Assigned, assign, attach, give_back, take_row, claim_and_take}

-- How a call came out, against the roster and the rows that it began with. An agent was attached:
-- they are a candidate who had room, one slot of theirs is taken and no other, and the row that
-- nobody held is theirs. Or nobody was: no slot is taken and no row is changed.
abbrev pub Outcome :
    ℕ → Conversation → List ℕ → Roster → List Conversation → Result Assigned × World → Type 0
Outcome now c users ρ rows (ok (some user, c'), w') =
    (member user users ≡ true)
    × ((claim user ρ).0 ≡ true)
    × ((v : ℕ) → slots now w'.redis v ≡ (claim user ρ).1 v)
    × (w'.conversations ≡ update_where (λ row. row.pk == c.pk) (take_row user now) rows)
    × ((row : Conversation) × (find_conversation c.pk rows ≡ some row) × (row.assigned_to ≡ none))
Outcome now c users ρ rows (ok (none, c'), w') =
    ((v : ℕ) → slots now w'.redis v ≡ ρ v) × (w'.conversations ≡ rows)
Outcome now c users ρ rows (raised e, w') =
    ((v : ℕ) → slots now w'.redis v ≡ ρ v) × (w'.conversations ≡ rows)

pub slots-mark_seen :
    (s : Settings) (now c v : ℕ) (p : Party) (r : Redis)
    → 0 < s.reconnect_grace
    → slots now (mark_seen s now c p r).1 v ≡ slots now r v
unfolding slots mark_seen
slots-mark_seen s now c v p r pos =
    ap (λ h. read_slots (or_else h []))
      (live-hset-expire now s.reconnect_grace (Key.live c p) (presence v) ((seen, num 1) ∷ []) r
        pos)

unassigned : (row : Conversation) → is_some row.assigned_to ≡ false → row.assigned_to ≡ none
unassigned row h = ground arith

module _ (w : World) (sane : IsSane w.settings) (c : Conversation) (user : ℕ) (users : List ℕ) where
  -- The transaction, entered with the claimed slot.
  attach-Outcome :
      (locked : Option Conversation)
      → find_conversation c.pk w.conversations ≡ locked
      → (claim_slot w.settings w.now user w.redis).0 ≡ true
      → Outcome w.now c
          (user ∷ users)
          (slots w.now w.redis)
          w.conversations
          (attach user c locked (record w { redis = (claim_slot w.settings w.now user w.redis).1 }))
  unfolding attach give_back
  attach-Outcome none e h =
      (λ v. release_slot-claim_slot w.settings w.now sane.presence user v w.redis h, refl)
  attach-Outcome (some locked) e h = elim (Bool-cases (is_some locked.assigned_to)) [
    | inl held ↦
        rw held (λ v. release_slot-claim_slot w.settings w.now sane.presence user v w.redis h, refl)
    | inr free ↦ rw free (
      rw (==_refl user),
      sym (claim_slot-refines w.settings w.now user sane.presence w.redis).0 ∙ h,
      λ v.
          slots-mark_seen w.settings w.now c.pk v agent (claim_slot w.settings w.now user w.redis).1
            sane.grace
          ∙ (claim_slot-refines w.settings w.now user sane.presence w.redis).1 v,
      refl,
      (locked, e, unassigned locked free),
    )
  ]

Outcome-weaken :
    (now : ℕ) (c : Conversation) (user : ℕ) (users : List ℕ) (ρ : Roster) (rows : List Conversation)
    (r : Result Assigned) (w' : World)
    → Outcome now c users ρ rows (r, w')
    → Outcome now c (user ∷ users) ρ rows (r, w')
Outcome-weaken now c user users ρ rows (ok (some u, c')) w' o =
    (ground (arith, o.0), o.1, o.2, o.3, o.4)
Outcome-weaken now c user users ρ rows (ok (none, c')) w' o = o
Outcome-weaken now c user users ρ rows (raised e) w' o = o

claim_refused : (u v : ℕ) (ρ : Roster) → (claim u ρ).0 ≡ false → (claim u ρ).1 v ≡ ρ v
claim_refused u v ρ h = ground arith

-- A call that goes on to the other agents, after the store changed in nothing that the roster
-- shows.
module _ (c : Conversation) (user : ℕ) (users : List ℕ) (w : World) where
  go_on-Outcome :
      (r : Redis)
      → slots w.now r ≡ slots w.now w.redis
      → (let w' : World = record w { redis = r } in
          Outcome w.now c users (slots w.now r) w.conversations (assign c users w'))
      → Outcome w.now c
          (user ∷ users)
          (slots w.now w.redis)
          w.conversations
          (assign c users (record w { redis = r }))
  go_on-Outcome r same o =
      let w' : World = record w { redis = r } in
      subst (λ ρ. Outcome w.now c (user ∷ users) ρ w.conversations (assign c users w')) same
        (Outcome-weaken w.now c user users (slots w.now r) w.conversations (assign c users w').0
          (assign c users w').1 o)

-- The agent looked to have room, and the claim decides.
claim_and_take-Outcome :
    (c : Conversation) (user : ℕ) (users : List ℕ) (w : World)
    → IsSane w.settings
    → ((r : Redis)
        → let w' : World = record w { redis = r } in
          Outcome w.now c users (slots w.now r) w.conversations (assign c users w'))
    → Outcome w.now c
        (user ∷ users)
        (slots w.now w.redis)
        w.conversations
        (claim_and_take c user (assign c users) w)
claim_and_take-Outcome c user users w sane rest =
    let taken = claim_slot-refines w.settings w.now user sane.presence w.redis in
    let r = (claim_slot w.settings w.now user w.redis).1 in
    elim (Bool-cases (claim_slot w.settings w.now user w.redis).0) [
      | inl e ↦
          rw e (attach-Outcome w sane c user users (find_conversation c.pk w.conversations) refl e)
      | inr e ↦ rw e (
          go_on-Outcome c user users w r
            (fun_ext
              (λ v. taken.1 v ∙ claim_refused user v (slots w.now w.redis) (sym taken.0 ∙ e)))
            (rest r))
    ]

-- With a positive presence TTL and grace period, `assign` comes out in one of two ways. Either it
-- returns an agent: then the agent is one of the candidates and had room, exactly one slot of
-- that agent is claimed and no other agent's numbers change, the locked row was held by nobody,
-- and it becomes ACTIVE and theirs. Or it returns no agent or raises: then no agent's numbers and
-- no conversation row have changed.
pub assign-Outcome :
    (c : Conversation) (users : List ℕ) (w : World)
    → IsSane w.settings
    → Outcome w.now c users (slots w.now w.redis) w.conversations (assign c users w)
unfolding assign
assign-Outcome c [] w sane = (λ v. refl, refl)
assign-Outcome c (user ∷ users) w sane =
    let r : Redis = (has_capacity w.now user w.redis).1 in
    let w' : World = record w { redis = r } in
    let same : slots w.now r ≡ slots w.now w.redis =
      fun_ext (λ v. slots-Alike w.now w.redis r v (has_capacity-Alike w.now user w.redis)) in
    elim (Bool-cases (has_capacity w.now user w.redis).0) [
      | inl e ↦ rw e (
          subst
            (λ ρ.
              Outcome w.now c (user ∷ users) ρ w.conversations
                (claim_and_take c user (assign c users) w'))
            same
            (claim_and_take-Outcome c user users w' sane
              (λ q. assign-Outcome c users (record w { redis = q }) sane)))
      | inr e ↦ rw e (go_on-Outcome c user users w r same (assign-Outcome c users w' sane))
    ]
