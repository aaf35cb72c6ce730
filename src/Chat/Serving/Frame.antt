-- ===== src/Chat/Serving/Frame.antt =====
-- What presence and assignment do to the queues, and which exceptions they raise.
use azm_crm.Prelude.{
  ℕ, Option, none, some, Bool, true, false, List, [], ◌∷◌, ◌≡◌, refl, ◌∙◌, arith, if◌then◌else◌,
  Bool-cases, inl, inr, is_some, leb,
}
use azm_crm.Chat.Settings.{Settings}
use azm_crm.Chat.Redis.Keys.{Party, agent}
use azm_crm.Chat.Redis.{Redis, hset, expire}
use azm_crm.Chat.Presence.{
  state, set_active, claim_slot, release_slot, claim_from, release_from, has_capacity,
}
use azm_crm.Chat.Presence.Reads.{has_capacity-Alike, state-Alike}
use azm_crm.Chat.Liveness.{mark_seen}
use azm_crm.Chat.Model.{Conversation}
use azm_crm.Chat.World.{World, M, Result, ok, raised, does_not_exist, find_conversation}
use azm_crm.Chat.Assignment.{Assigned, assign, attach, give_back, claim_and_take}

zsets-set_active :
    (s : Settings) (now user a : ℕ) (r : Redis) → (set_active s now user a r).1.zsets ≡ r.zsets
unfolding set_active hset expire
zsets-set_active s now user a r = ground arith

pub zsets-claim_slot :
    (s : Settings) (now user : ℕ) (r : Redis) → (claim_slot s now user r).1.zsets ≡ r.zsets
unfolding claim_slot
zsets-claim_slot s now user r =
    zsets-claim_from (state now user r).0 (state now user r).1 ∙ (state-Alike now user r).zsets
  where
    zsets-claim_from :
        (st : Option (ℕ × ℕ)) (q : Redis) → (claim_from s now user st q).1.zsets ≡ q.zsets
    zsets-claim_from none q = refl
    zsets-claim_from (some (c, a)) q = elim (Bool-cases (leb c a)) [
      | inl e ↦ rw e
      | inr e ↦ rw e (zsets-set_active s now user _ q)
    ]

pub zsets-release_slot :
    (s : Settings) (now user : ℕ) (r : Redis) → (release_slot s now user r).1.zsets ≡ r.zsets
unfolding release_slot
zsets-release_slot s now user r =
    zsets-release_from (state now user r).0 (state now user r).1 ∙ (state-Alike now user r).zsets
  where
    zsets-release_from :
        (st : Option (ℕ × ℕ)) (q : Redis) → (release_from s now user st q).1.zsets ≡ q.zsets
    zsets-release_from none q = refl
    zsets-release_from (some (c, a)) q = zsets-set_active s now user _ q

pub zsets-mark_seen :
    (s : Settings) (now c : ℕ) (p : Party) (r : Redis) → (mark_seen s now c p r).1.zsets ≡ r.zsets
unfolding mark_seen hset expire
zsets-mark_seen s now c p r = ground arith

-- Nothing is raised but that the row is missing, and then it was not found.
abbrev pub OnlyMissing : {A : Type 0} → Bool → Result A → Type 0
OnlyMissing found (ok a) = Unit
OnlyMissing found (raised e) = (e ≡ does_not_exist) × (found ≡ false)

abbrev pub IsCalm : {A : Type 0} → Bool → World → Result A × World → Type 0
IsCalm found w (r, w') = (w'.redis.zsets ≡ w.redis.zsets) × OnlyMissing found r

abbrev pub is_found : Conversation → World → Bool
is_found c w = is_some (find_conversation c.pk w.conversations)

attach-IsCalm :
    (user : ℕ) (c : Conversation) (locked : Option Conversation) (w : World)
    → IsCalm (is_some locked) w (attach user c locked w)
unfolding attach give_back
attach-IsCalm user c none w = (zsets-release_slot w.settings w.now user w.redis, (refl, refl))
attach-IsCalm user c (some locked) w = elim (Bool-cases (is_some locked.assigned_to)) [
  | inl e ↦ rw e (zsets-release_slot w.settings w.now user w.redis, tt)
  | inr e ↦ rw e (zsets-mark_seen w.settings w.now c.pk agent w.redis, tt)
]

module _ (c : Conversation) (user : ℕ) (rest : M Assigned)
    (calm : (w : World) → IsCalm (is_found c w) w (rest w)) where
  claim_and_take-IsCalm : (w : World) → IsCalm (is_found c w) w (claim_and_take c user rest w)
  claim_and_take-IsCalm w =
      let claimed = claim_slot w.settings w.now user w.redis in
      let w' : World = record w { redis = claimed.1 } in
      let same = zsets-claim_slot w.settings w.now user w.redis in
      elim (Bool-cases (claim_slot w.settings w.now user w.redis).0) [
        | inl e ↦
            let done = attach-IsCalm user c (find_conversation c.pk w.conversations) w' in
            rw e (done.0 ∙ same, done.1)
        | inr e ↦ rw e ((calm w').0 ∙ same, (calm w').1)
      ]

  try_agent-IsCalm :
      (w : World) (room : Bool)
      → IsCalm (is_found c w) w ((if room then claim_and_take c user rest else rest) w)
  try_agent-IsCalm w true = claim_and_take-IsCalm w
  try_agent-IsCalm w false = calm w

pub assign-IsCalm :
    (c : Conversation) (users : List ℕ) (w : World) → IsCalm (is_found c w) w (assign c users w)
unfolding assign
assign-IsCalm c [] w = (refl, tt)
assign-IsCalm c (user ∷ users) w =
    let asked = has_capacity w.now user w.redis in
    let w' : World = record w { redis = asked.1 } in
    let done = try_agent-IsCalm c user (assign c users) (assign-IsCalm c users) w' asked.0 in
    (done.0 ∙ (has_capacity-Alike w.now user w.redis).zsets, done.1)
