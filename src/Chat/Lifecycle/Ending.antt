-- ===== src/Chat/Lifecycle/Ending.antt =====
-- About `end` of apps/chat/services/lifecycle.py: its writes, its result, and a second call.
use azm_crm.Prelude.{
  ℕ, Option, none, some, Bool, false, [], ◌∷◌, ◌==◌, ◌≡◌, refl, sym, ◌∙◌, ap, arith, update_where,
  Bool-cases, Option-cases, inl, inr, or_else,
}
use azm_crm.Chat.Settings.{IsSane}
use azm_crm.Chat.Model.{Conversation, ended_now, EndReason, ended, state_eq}
use azm_crm.Chat.Redis.Keys.{Hash, unread, presence, pop, id}
use azm_crm.Chat.Redis.{Redis, hset, delete, hgetall, zrem}
use azm_crm.Chat.Redis.Live.{live, live-delete, live-hgetall}
use azm_crm.Chat.Presence.{release_slot, read_slots}
use azm_crm.Chat.Presence.Roster.{slots, release, release_slot-refines}
use azm_crm.Chat.Unread
use azm_crm.Chat.Unread.{write_back}
use azm_crm.Chat.Queue
use azm_crm.Chat.Assignment
use azm_crm.Chat.Serving.{leave_queue, connect_next_waiting}
use azm_crm.Chat.Messaging.{broadcast_system}
use azm_crm.Chat.World.{World, M, pure, ◌>>◌, ok, >>-eq-ok}
use azm_crm.Chat.Lifecycle.{close, close_row, finish, end_open, resolve_ticket, announce_ended}

-- The store after the writes of an ending.
abbrev closed_store : World → Conversation → Option ℕ → Redis
closed_store w c none = (Queue.leave c.pk c.department c.branch w.redis).1
closed_store w c (some user) =
    let freed = (release_slot w.settings w.now user w.redis).1 in
    (Unread.forget w.now c.pk (user ∷ []) (Queue.leave c.pk c.department c.branch freed).1).1

close_row_lem :
    (c : Conversation) (reason : EndReason) (by : Option ℕ) (w : World)
    → close_row c reason by w ≡ (
      ok (close reason by w.now c),
      record w {
        redis = closed_store w c c.assigned_to;
        conversations =
            update_where (λ row. row.pk == c.pk) (close reason by w.now) w.conversations;
      },
    )
unfolding close_row Assignment.release leave_queue
close_row_lem c reason by w = elim (Option-cases c.assigned_to) [
  | inl e ↦ rw e
  | inr (user, e) ↦ rw e
]

slots-write_back :
    (now user v : ℕ) (h : Hash) (r : Redis)
    → slots now (write_back (unread user) h r).1 v ≡ slots now r v
unfolding slots live hset
slots-write_back now user v [] r = refl
slots-write_back now user v (x ∷ h) r = refl

slots-clear :
    (now user c v : ℕ) (r : Redis) → slots now (Unread.clear now user c r).1 v ≡ slots now r v
unfolding Unread.clear
slots-clear now user c v r =
    let read : Redis = (hgetall now (unread user) r).1 in
    slots-write_back now user v (pop (id c) (hgetall now (unread user) r).0)
      (delete (unread user) read).1
    ∙ unfold slots in
      ap (λ h. read_slots (or_else h []))
        (live-delete now (unread user) (presence v) read
          ∙ live-hgetall now (unread user) (presence v) r)

slots-forget :
    (now user c v : ℕ) (r : Redis)
    → slots now (Unread.forget now c (user ∷ []) r).1 v ≡ slots now r v
unfolding Unread.forget
slots-forget now user c v r = slots-clear now user c v r

slots-leave :
    (now token d b v : ℕ) (r : Redis) → slots now (Queue.leave token d b r).1 v ≡ slots now r v
unfolding slots live Queue.leave zrem
slots-leave now token d b v r = refl

module _ (c : Conversation) (reason : EndReason) (by : Option ℕ) (w : World) where
  -- With a positive presence TTL and grace period, the writes of an ending give back one slot of
  -- the agent whom the caller's copy names, and change no other agent's numbers.
  pub close_row_frees :
      (user v : ℕ)
      → IsSane w.settings
      → c.assigned_to ≡ some user
      → slots w.now (close_row c reason by w).1.redis v ≡ release user (slots w.now w.redis) v
  close_row_frees user v sane e =
      let freed : Redis = (release_slot w.settings w.now user w.redis).1 in
      let left : Redis = (Queue.leave c.pk c.department c.branch freed).1 in
      rw (close_row_lem c reason by w, e)
        (slots-forget w.now user c.pk v left
          ∙ slots-leave w.now c.pk c.department c.branch v freed
          ∙ release_slot-refines w.settings w.now user sane.presence w.redis v)

after_closing : Conversation → Bool → M Conversation
after_closing d resolve = do
  resolve_ticket resolve d.ticket
  broadcast_system d ended_now false
  announce_ended d
  connect_next_waiting d.department d.branch []
  pure d

returns_it :
    (d : Conversation) (resolve : Bool) (w w' : World) {c' : Conversation}
    → after_closing d resolve w ≡ (ok c', w')
    → d ≡ c'
unfolding after_closing
returns_it d resolve w w' e =
    let (w1, e1) = >>-eq-ok (resolve_ticket resolve d.ticket) _ w e in
    let (w2, e2) = >>-eq-ok (broadcast_system d ended_now false) _ w1 e1 in
    let (w3, e3) = >>-eq-ok (announce_ended d) _ w2 e2 in
    let (w4, e4) = >>-eq-ok (connect_next_waiting d.department d.branch []) (pure d) w3 e3 in
    ground arith

-- The copy that an ending gives back is ended.
finish_open :
    (c : Conversation) (reason : EndReason) (by : Option ℕ) (resolve : Bool) (w w' : World)
    {c' : Conversation}
    → end_open c reason by resolve w ≡ (ok c', w')
    → c'.state ≡ ended
unfolding after_closing
finish_open c reason by resolve w w' {c'} e =
    let d = close reason by w.now c in
    let closed = rw (close_row_lem c reason by w) at e in
    ap (λ x. x.state) (sym (returns_it d resolve _ w' {c' = c'} closed))

pub finish-ended :
    (c : Conversation) (reason : EndReason) (by : Option ℕ) (resolve : Bool) (w w' : World)
    {c' : Conversation}
    → finish c reason by resolve w ≡ (ok c', w')
    → c'.state ≡ ended
unfolding finish
finish-ended c reason by resolve w w' e = elim (Bool-cases (state_eq c.state ended)) [
  | inl done ↦ ground arith
  | inr still ↦ finish_open c reason by resolve w w' (rw still at e)
]

-- If a call of `end` returns a copy, a second call of `end` on that copy, with any reason, ender
-- and choice to resolve, returns the same copy and changes nothing in the store, the tables or
-- the frames sent.
pub finish_again :
    (c : Conversation) (reason reason' : EndReason) (by by' : Option ℕ) (resolve resolve' : Bool)
    (w w' : World) (c' : Conversation)
    → finish c reason by resolve w ≡ (ok c', w')
    → finish c' reason' by' resolve' w' ≡ (ok c', w')
finish_again c reason reason' by by' resolve resolve' w w' c' e =
    let done = finish-ended c reason by resolve w w' e in unfold finish in ground arith
