-- ===== src/Chat/Queue/Fifo.antt =====
-- About apps/chat/services/queue.py: what the calls on one queue do to the order of those who
-- wait.
use azm_crm.Prelude.{
  ℕ, ◌+◌, none, some, false, List, [], ◌∷◌, ◌++◌, ◌≡◌, refl, arith, ap, is_some, inl, inr, length,
  sym, ◌∙◌, Option-cases, ==_refl,
}
use azm_crm.Chat.Redis.Keys.{Key, queue}
use azm_crm.Chat.Redis.{Redis, zrange, zrank, zadd, zrem, put}
use azm_crm.Chat.Redis.Sorted.{ZSet, ordered, zput, zdrop, members, index_of}
use azm_crm.Chat.Redis.Live.{key_eq_refl}
use azm_crm.Chat.Queue.{join, leave, position, take_next, drain, zrem_all, join_at}
use azm_crm.Chat.Queue.Order.{
  IsQueue, has, ordered-Ascending, zput_new, has-zput, has-ordered, index_of-has, zput-IsQueue,
  zdrop-IsQueue, members-append, members-zdrop, without, index_of-append,
}

-- Those who wait, longest first.
abbrev pub waiting : ℕ → ℕ → Redis → List ℕ
waiting department branch r = members (ordered (r.zsets (queue department branch)))

abbrev pub IsOpen : ℕ → ℕ → ℕ → Redis → Type 0
IsOpen now department branch r = IsQueue now (r.zsets (queue department branch))

put_self {ℓ} : {A : Type ℓ} (k : Key) (a : A) (m : Key → A) → put k a m k ≡ a
put_self k a m = rw (key_eq_refl k)

zrem_all-members :
    (k : Key) (z : ZSet) (r : Redis) → r.zsets k ≡ z → (zrem_all k (members z) r).1.zsets k ≡ []
unfolding zrem_all zrem zdrop
zrem_all-members k [] r e = e
zrem_all-members k (d ∷ z) r e =
    zrem_all-members k z (zrem k d.0 r).1 (ground (arith, key_eq_refl k))

module _ (department branch : ℕ) where
  join_new :
      (now token : ℕ) (r : Redis)
      → index_of token (waiting department branch r) ≡ none
      → (join now token department branch r).1 ≡ (zadd (queue department branch) token now r).1
  unfolding join zrank
  join_new now token r e = rw (e, join_at)

  join_old :
      (now token : ℕ) {i : ℕ} (r : Redis)
      → index_of token (waiting department branch r) ≡ some i
      → (join now token department branch r).1 ≡ r
  unfolding join zrank
  join_old now token r e = rw (e, join_at)

  zsets-zadd :
      (now token : ℕ) (r : Redis)
      → (zadd (queue department branch) token now r).1.zsets (queue department branch)
        ≡ zput token now (r.zsets (queue department branch))
  unfolding zadd
  zsets-zadd now token r = put_self (queue department branch) _ r.zsets

  zsets-leave :
      (token : ℕ) (r : Redis)
      → (leave token department branch r).1.zsets (queue department branch)
        ≡ zdrop token (r.zsets (queue department branch))
  unfolding leave zrem
  zsets-leave token r = put_self (queue department branch) _ r.zsets

  -- Whether a token stands in the order is whether the set has it.
  is_waiting :
      (token : ℕ) (r : Redis)
      → is_some (index_of token (waiting department branch r))
        ≡ has token (r.zsets (queue department branch))
  is_waiting token r =
      index_of-has token (ordered (r.zsets (queue department branch)))
      ∙ has-ordered token (r.zsets (queue department branch))

  not_waiting :
      (token : ℕ) (r : Redis)
      → index_of token (waiting department branch r) ≡ none
      → has token (r.zsets (queue department branch)) ≡ false
  not_waiting token r e = sym (is_waiting token r) ∙ ap is_some e

  join_added :
      (now later token : ℕ) (r : Redis)
      → let added = (zadd (queue department branch) token now r).1 in
        (join later token department branch added).1 ≡ added
  join_added now later token r =
      let added : Redis = (zadd (queue department branch) token now r).1 in
      elim (Option-cases (index_of token (waiting department branch added))) [
        | inr (i, e) ↦ join_old later token added e
        | inl e ↦ absurd (
            ground (
              arith,
              not_waiting token added e,
              zsets-zadd now token r,
              has-zput token token now (r.zsets (queue department branch)),
            ))
      ]

  -- Joining a second time, at whatever moment, leaves the store as the first left it.
  pub join_idempotent :
      (now later token : ℕ) (r : Redis)
      → let joined = (join now token department branch r).1 in
        (join later token department branch joined).1 ≡ joined
  join_idempotent now later token r =
      elim (Option-cases (index_of token (waiting department branch r))) [
        | inr (i, e) ↦ rw (join_old now token r e) (join_old later token r e)
        | inl e ↦ rw (join_new now token r e) (join_added now later token r)
      ]

  -- In a queue in order of arrival, a visitor who was not waiting joins last, and those who were
  -- keep their order.
  pub join_last :
      (now token : ℕ) (r : Redis)
      → IsOpen now department branch r
      → index_of token (waiting department branch r) ≡ none
      → waiting department branch (join now token department branch r).1
        ≡ waiting department branch r ++ token ∷ []
  join_last now token r q e =
      let z : ZSet = r.zsets (queue department branch) in
      let absent = not_waiting token r e in
      rw
        (
          join_new now token r e,
          zsets-zadd now token r,
          ordered-Ascending (zput token now z) (zput-IsQueue now token z absent q).ascending,
          ordered-Ascending z q.ascending,
          zput_new token now z absent,
        )
        (members-append z ((token, now) ∷ []))

  -- Joining keeps the queue in the order of arrival.
  pub join-IsOpen :
      (now token : ℕ) (r : Redis)
      → IsOpen now department branch r
      → IsOpen now department branch (join now token department branch r).1
  join-IsOpen now token r q = elim (Option-cases (index_of token (waiting department branch r))) [
    | inr (i, e) ↦ rw (join_old now token r e) q
    | inl e ↦
        rw (join_new now token r e, zsets-zadd now token r)
          (zput-IsQueue now token (r.zsets (queue department branch)) (not_waiting token r e) q)
  ]

  pub leave-IsOpen :
      (now token : ℕ) (r : Redis)
      → IsOpen now department branch r
      → IsOpen now department branch (leave token department branch r).1
  leave-IsOpen now token r q =
      rw (zsets-leave token r) (zdrop-IsQueue now token (r.zsets (queue department branch)) q)

  -- In a queue in order of arrival, leaving takes the visitor out of the order and leaves the
  -- others in theirs.
  pub leave-without :
      (now token : ℕ) (r : Redis)
      → IsOpen now department branch r
      → waiting department branch (leave token department branch r).1
        ≡ without token (waiting department branch r)
  leave-without now token r q =
      let z : ZSet = r.zsets (queue department branch) in
      rw
        (
          zsets-leave token r,
          ordered-Ascending (zdrop token z) (zdrop-IsQueue now token z q).ascending,
          ordered-Ascending z q.ascending,
        )
        (members-zdrop token z)

  -- In a queue in order of arrival, a visitor who was not waiting is told on joining a position
  -- one behind all who were.
  pub position-join :
      (now token : ℕ) (r : Redis)
      → IsOpen now department branch r
      → index_of token (waiting department branch r) ≡ none
      → (position token department branch (join now token department branch r).1).0
        ≡ some (length (waiting department branch r) + 1)
  unfolding position zrank
  position-join now token r q e = rw (
    join_last now token r q e,
    index_of-append token (waiting department branch r) (ap is_some e),
  )

  take_next_leaves :
      (token : ℕ) (rest : List ℕ) (r : Redis)
      → waiting department branch r ≡ token ∷ rest
      → take_next department branch r ≡ (some token, (leave token department branch r).1)
  unfolding take_next zrange leave
  take_next_leaves token rest r e = rw e

  -- In a queue in order of arrival, `take_next` gives the visitor who has waited longest, and
  -- leaves the others in their order.
  pub take_next_lem :
      (now token : ℕ) (rest : List ℕ) (r : Redis)
      → IsOpen now department branch r
      → waiting department branch r ≡ token ∷ rest
      → ((take_next department branch r).0 ≡ some token)
        × (waiting department branch (take_next department branch r).1 ≡ rest)
  take_next_lem now token rest r q e =
      rw (take_next_leaves token rest r e)
        (refl, leave-without now token r q ∙ rw (e, ==_refl token) refl)

  -- In a queue in order of arrival, `drain` gives all who wait, in order, and leaves nobody.
  pub drain_lem :
      (now : ℕ) (r : Redis)
      → IsOpen now department branch r
      → ((drain department branch r).0 ≡ waiting department branch r)
        × (waiting department branch (drain department branch r).1 ≡ [])
  unfolding drain zrange
  drain_lem now r q =
      let z : ZSet = r.zsets (queue department branch) in
      (
        refl,
        rw (ordered-Ascending z q.ascending, zrem_all-members (queue department branch) z r refl)
            (unfold ordered in refl),
      )
