-- ===== src/Chat/Presence/Capacity.antt =====
-- About apps/chat/services/presence.py: the numbers of the agents, kept within bounds, taken and
-- given back, and lost or found again.
use azm_crm.Prelude.{
  ℕ, ◌≤◌, ◌<◌, Option, none, some, true, [], ◌==◌, ◌≡◌, ap, arith, fun_ext, ==_iff, Option-cases,
  inl, inr, sym, ◌∙◌, Bool-cases, or_else,
}
use azm_crm.Chat.Settings.{Settings}
use azm_crm.Chat.Redis.Keys.{presence, Hash}
use azm_crm.Chat.Redis.{Redis}
use azm_crm.Chat.Redis.Live.{live, expire_revives}
use azm_crm.Chat.Presence.{claim_slot, release_slot, go_online, heartbeat, or_default, read_slots}
use azm_crm.Chat.Presence.Roster.{
  Roster, slots, claim, release, claim_slot-refines, release_slot-refines, go_online_lem,
}

-- No agent holds more conversations than their capacity.
abbrev pub Fits : Option (ℕ × ℕ) → Type 0
Fits none = Unit
Fits (some (c, a)) = a ≤ c

abbrev pub IsWithin : Roster → Type 0
IsWithin ρ = (u : ℕ) → Fits (ρ u)

claim-Fits : (u v : ℕ) (ρ : Roster) → Fits (ρ u) → Fits (ρ v) → Fits ((claim u ρ).1 v)
claim-Fits u v ρ h k = ground arith

release-Fits : (u v : ℕ) (ρ : Roster) → Fits (ρ u) → Fits (ρ v) → Fits (release u ρ v)
release-Fits u v ρ h k = ground arith

release-claim : (u v : ℕ) (ρ : Roster) → (claim u ρ).0 ≡ true → release u (claim u ρ).1 v ≡ ρ v
release-claim u v ρ h = elim (Bool-cases (u == v)) [
  | inl e ↦ ground (arith, ap ρ ((==_iff u v).0 e))
  | inr e ↦ ground arith
]

module _ (s : Settings) (now : ℕ) (pos : 0 < s.presence_ttl) where
  -- With a positive presence TTL, if no agent held more conversations than their capacity, none
  -- does after `claim_slot`.
  pub claim_slot-IsWithin :
      (user : ℕ) (r : Redis)
      → IsWithin (slots now r)
      → IsWithin (slots now (claim_slot s now user r).1)
  claim_slot-IsWithin user r h v =
      rw ((claim_slot-refines s now user pos r).1 v)
        (claim-Fits user v (slots now r) (h user) (h v))

  pub release_slot-IsWithin :
      (user : ℕ) (r : Redis)
      → IsWithin (slots now r)
      → IsWithin (slots now (release_slot s now user r).1)
  release_slot-IsWithin user r h v =
      rw (release_slot-refines s now user pos r v)
        (release-Fits user v (slots now r) (h user) (h v))

  -- With a positive presence TTL, a slot that was claimed with success and then given back leaves
  -- every agent's numbers as they were.
  pub release_slot-claim_slot :
      (user v : ℕ) (r : Redis)
      → (claim_slot s now user r).0 ≡ true
      → slots now (release_slot s now user (claim_slot s now user r).1).1 v ≡ slots now r v
  release_slot-claim_slot user v r h =
      let taken = claim_slot-refines s now user pos r in
      rw (release_slot-refines s now user pos (claim_slot s now user r).1 v, fun_ext taken.1)
        (release-claim user v (slots now r) (sym taken.0 ∙ h))

  -- With a positive presence TTL, an agent who is online, however many conversations they hold,
  -- holds none by the store's count after `go_online`.
  pub go_online_forgets :
      (user held c : ℕ) (r : Redis) (room : Option ℕ)
      → slots now r user ≡ some (c, held)
      → slots now (go_online s now user room r).1 user ≡ some (or_default s room, 0)
  go_online_forgets user held c r room e =
      rw (go_online_lem s now user pos r room user) (ground arith)

  hidden :
      (user : ℕ) {st : ℕ × ℕ} (r : Redis) (h : Hash)
      → r.hashes (presence user) ≡ some h
      → slots now r user ≡ none
      → read_slots (or_else (r.hashes (presence user)) []) ≡ some st
      → live now (presence user) r ≡ none
  unfolding slots live
  hidden user r h e gone held = ground arith

  -- With a positive presence TTL, the heartbeat of an agent whose key has expired, but was not
  -- read since, is answered with true, and the agent is online again with the numbers they had.
  pub heartbeat_revives :
      (user : ℕ) {st : ℕ × ℕ} (r : Redis)
      → slots now r user ≡ none
      → read_slots (or_else (r.hashes (presence user)) []) ≡ some st
      → ((heartbeat s now user r).0 ≡ true) × (slots now (heartbeat s now user r).1 user ≡ some st)
  unfolding heartbeat slots
  heartbeat_revives user r gone held = elim (Option-cases (r.hashes (presence user))) [
    | inl e ↦ cc held
    | inr (h, e) ↦
        let back =
          expire_revives now s.presence_ttl (presence user) r pos e (hidden user r h e gone held) in
        (back.0, rw back.1 (ground arith))
  ]
