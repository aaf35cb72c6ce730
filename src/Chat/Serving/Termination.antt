-- ===== src/Chat/Serving/Termination.antt =====
-- About the loop of `connect_next_waiting` in apps/chat/services/lifecycle.py: its rounds and its
-- end.
use azm_crm.Prelude.{
  ℕ, suc, zero, ◌<◌, List, [], ◌∷◌, ◌++◌, ◌≡◌, refl, sym, ◌∙◌, ap, arith, ◌⊎◌, inl, inr, Option,
  none, some, length, true, keep, not, member, is_some, Option-cases, subst, ==_refl,
}
use azm_crm.Chat.Model.{Conversation}
use azm_crm.Chat.Redis.Keys.{Key, queue}
use azm_crm.Chat.Redis.Sorted.{ZSet, ordered, zdrop, zfind}
use azm_crm.Chat.Redis.{Redis, zrem, zrange, zscore}
use azm_crm.Chat.Queue
use azm_crm.Chat.Redis.Live.{key_eq_refl}
use azm_crm.Chat.Presence.{agents_with_capacity}
use azm_crm.Chat.Presence.Reads.{agents_with_capacity_lem}
use azm_crm.Chat.Queue.Order.{has, has-ordered}
use azm_crm.Chat.Assignment.{Assigned, assign}
use azm_crm.Chat.Serving.Frame.{IsCalm, is_found, assign-IsCalm}
use azm_crm.Chat.World.{World, Result, ok, raised, next, find_conversation, ◌>>◌, pure}
use azm_crm.Chat.Serving.{
  Round, stop, skipped, connected, round, serve_head, connect_head, connect_with, leave_queue,
  eligible_agent_ids, find_waiting, go_on, announce_from, announce_positions, serve_waiting,
  connect_next_waiting,
}

abbrev pub waiters : ℕ → ℕ → World → ℕ
waiters department branch w = length (w.redis.zsets (queue department branch))

-- A round stops, or leaves fewer who wait, and never raises.
abbrev pub Progress : ℕ → Result Round × World → ℕ → ℕ → Type 0
Progress before (ok stop, w) d b = Unit
Progress before (ok skipped, w) d b = waiters d b w < before
Progress before (ok (connected c), w) d b = waiters d b w < before
Progress before (raised e, w) d b = ⊥

abbrev Answers : {A : Type 0} → Result A → Type 0
Answers (ok a) = Unit
Answers (raised e) = ⊥

answer : {A : Type 0} {r : Result A} → Answers r → (a : A) × (r ≡ ok a)
answer {r = ok a} h = (a, refl)
answer {r = raised e} h = absurd h

length-zdrop : (m : ℕ) (z : ZSet) → has m z ≡ true → length (zdrop m z) < length z
unfolding zdrop zfind
length-zdrop m [] h = cc
length-zdrop m (d ∷ z) h = ground (arith, length-zdrop m z)

-- What `peek` gives: nobody, or a visitor who is in the set.
peek_from :
    (department branch : ℕ) (r : Redis) (y : ZSet)
    → ordered (r.zsets (queue department branch)) ≡ y
    → (Queue.peek department branch r ≡ (none, r))
      ⊎ ((m : ℕ) × (score : Option ℕ) × (Queue.peek department branch r ≡ (some (m, score), r))
          × (has m (r.zsets (queue department branch)) ≡ true))
unfolding Queue.peek zrange zscore
peek_from department branch r [] e = inl (rw e)
peek_from department branch r (d ∷ y) e = inr (
  d.0,
  zfind d.0 (r.zsets (queue department branch)),
  rw e,
  sym (has-ordered d.0 (r.zsets (queue department branch)))
      ∙ rw e (unfold zfind in ground (arith, ==_refl d.0)),
)

-- A row that was read is there to be locked.
abbrev Finds : Option Conversation → World → Type 0
Finds none w = Unit
Finds (some c) w = is_found c w ≡ true

find_waiting_found :
    (m : ℕ) (rows : List Conversation) (c : Conversation)
    → find_waiting m rows ≡ some c
    → is_some (find_conversation c.pk rows) ≡ true
find_waiting_found m [] c e = cc
find_waiting_found m (d ∷ rows) c e = ground (arith, find_waiting_found m rows c)

find_waiting-Finds : (m : ℕ) (w : World) → Finds (find_waiting m w.conversations) w
find_waiting-Finds m w = elim (Option-cases (find_waiting m w.conversations)) [
  | inl e ↦ rw e tt
  | inr (c, e) ↦ rw e (find_waiting_found m w.conversations c e)
]

module _ (department branch : ℕ) where
  leave_fewer :
      (w w' : World) (token : ℕ)
      → w'.redis.zsets ≡ w.redis.zsets
      → has token (w.redis.zsets (queue department branch)) ≡ true
      → waiters department branch (leave_queue token department branch w').1
        < waiters department branch w
  unfolding leave_queue Queue.leave zrem
  leave_fewer w w' token same h =
      let key = queue department branch in
      rw (key_eq_refl key, ap (λ (f : Key → ZSet). f key) same)
        (length-zdrop token (w.redis.zsets key) h)

  connect_with-Progress :
      (w : World) (token : ℕ) (r : Result Assigned) (w' : World)
      → IsCalm true w (r, w')
      → has token (w.redis.zsets (queue department branch)) ≡ true
      → Progress
          (waiters department branch w)
          (next r (connect_with token department branch) w')
          department
          branch
  unfolding leave_queue
  connect_with-Progress w token (ok (none, c)) w' calm h = tt
  connect_with-Progress w token (ok (some agent, c)) w' calm h = leave_fewer w w' token calm.0 h
  connect_with-Progress w token (raised e) w' calm h = absurd (cc (calm.1.1))

  connect_head-Progress :
      (w : World) (token : ℕ) (candidates : List ℕ) (row : Option Conversation)
      → Finds row w
      → has token (w.redis.zsets (queue department branch)) ≡ true
      → Progress
          (waiters department branch w)
          (connect_head token department branch candidates row w)
          department
          branch
  unfolding leave_queue
  connect_head-Progress w token candidates none here h = leave_fewer w w token refl h
  connect_head-Progress w token candidates (some c) here h =
      let done = assign c candidates w in
      connect_with-Progress w token done.0 done.1
        (subst (λ found. IsCalm found w (assign c candidates w)) here
          (assign-IsCalm c candidates w))
        h

  serve_head-Progress :
      (w : World) (candidates : List ℕ)
      → Progress
          (waiters department branch w)
          (serve_head department branch candidates w)
          department
          branch
  serve_head-Progress w [] = tt
  serve_head-Progress w (u ∷ us) =
      elim (peek_from department branch w.redis (ordered (w.redis.zsets (queue department branch)))
        refl) [
          | inl e ↦ rw e tt
          | inr (m, score, e, h) ↦ rw e (
              connect_head-Progress w m (u ∷ us) (find_waiting m w.conversations)
                (find_waiting-Finds m w) h)
        ]

  round-Progress :
      (exclude : List ℕ) (w : World)
      → Progress (waiters department branch w) (round department branch exclude w) department branch
  unfolding round
  round-Progress exclude w =
      let ids = eligible_agent_ids department branch w.users in
      let asked = agents_with_capacity w.now ids w.redis in
      let w' : World = record w { redis = asked.1 } in
      let same = (agents_with_capacity_lem w.now ids w.redis).1.zsets in
      rw (← ap (λ (f : Key → ZSet). length (f (queue department branch))) same)
        (serve_head-Progress w' (keep (λ u. not (member u exclude)) asked.0))

-- The rounds end with an answer, whatever is in the store and the tables.
serve_waiting_ends :
    (fuel department branch : ℕ) (exclude : List ℕ) (acc : List Conversation) (w : World)
    → waiters department branch w < fuel
    → Answers (serve_waiting fuel department branch exclude acc w).0
unfolding serve_waiting
serve_waiting_ends zero d b exclude acc w h = elim h [ ]
serve_waiting_ends (suc fuel) d b exclude acc w h =
    go (round d b exclude w) (round-Progress d b exclude w)
      (λ acc' w' le. serve_waiting_ends fuel d b exclude acc' w' le)
  where
    go :
        (o : Result Round × World)
        → Progress (waiters d b w) o d b
        → ((acc' : List Conversation) (w' : World)
            → waiters d b w' < fuel
            → Answers (serve_waiting fuel d b exclude acc' w').0)
        → Answers (next o.0 (go_on (serve_waiting fuel d b exclude) acc) o.1).0
    go (ok stop, w') p ih = tt
    go (ok skipped, w') p ih = ih acc w' (omega arith)
    go (ok (connected c), w') p ih = ih (acc ++ c ∷ []) w' (omega arith)
    go (raised e, w') p ih = absurd p

announce_from-ok : (i : ℕ) (tokens : List ℕ) (w : World) → (announce_from i tokens w).0 ≡ ok tt
unfolding announce_from
announce_from-ok i [] w = refl
announce_from-ok i (t ∷ ts) w = announce_from-ok (suc i) ts _

announced :
    (department branch : ℕ) (r : Result (List Conversation)) (w : World)
    → Answers r
    → Answers (next r (λ result. announce_positions department branch >> pure result) w).0
unfolding announce_positions
announced d b (ok l) w h = rw (announce_from-ok 1 _ _) tt
announced d b (raised e) w h = h

-- `connect_next_waiting` always comes to an end and returns a list, from any store and any tables
-- and whichever agents are excluded: the fuel of one more than the number of those who wait is
-- enough, and nothing is raised.
pub connect_next_waiting_total :
    (department branch : ℕ) (exclude : List ℕ) (w : World)
    → (served : List Conversation) × ((connect_next_waiting department branch exclude w).0
        ≡ ok served)
unfolding connect_next_waiting
connect_next_waiting_total d b exclude w = answer (
    announced d b (serve_waiting (suc (waiters d b w)) d b exclude [] w).0 _
      (serve_waiting_ends (suc (waiters d b w)) d b exclude [] w (omega arith)))
