-- ===== src/Chat/Tests/Presences.antt =====
-- Presence and the queue on one desk.
use azm_crm.Prelude.{ℕ, none, some, [], ◌∷◌, ◌≡◌, refl, arith, or_else}
use azm_crm.Chat.Settings.{base}
use azm_crm.Chat.Redis.Keys.{presence}
use azm_crm.Chat.Redis.{hgetall, hset, expire, zrank, zadd}
use azm_crm.Chat.Redis.Sorted.{index_of, ordered, zput}
use azm_crm.Chat.Redis.Live.{live}
use azm_crm.Chat.Presence.{go_online, claim_slot, state, set_active, read_slots}
use azm_crm.Chat.Presence.Roster.{slots, claim, claim_slot-refines}
use azm_crm.Chat.Presence.Capacity.{IsWithin, go_online_forgets}
use azm_crm.Chat.Queue
use azm_crm.Chat.Queue.Order.{IsQueue-later}
use azm_crm.Chat.Queue.Fifo
use azm_crm.Chat.Tests.{empty, staffed, busy, queued}

claim_slot-refines_example :
    ((claim_slot base 100 11 staffed).0 ≡ (claim 11 (slots 100 staffed)).0)
    × ((v : ℕ)
        → slots 100 (claim_slot base 100 11 staffed).1 v ≡ (claim 11 (slots 100 staffed)).1 v)
claim_slot-refines_example = claim_slot-refines base 100 11 (omega arith) staffed

empty-IsWithin : IsWithin (slots 100 empty)
unfolding slots live
empty-IsWithin u = tt

busy_holds_one : slots 100 busy 11 ≡ some (1, 1)
unfolding claim_slot state hgetall set_active go_online slots live hset expire
busy_holds_one = refl

go_online_forgets_example : slots 100 (go_online base 100 11 (some 1) busy).1 11 ≡ some (1, 0)
go_online_forgets_example =
    go_online_forgets base 100 (omega arith) 11 1 1 busy (some 1) busy_holds_one

lapsed : slots 200 busy 11 ≡ none
unfolding claim_slot state hgetall set_active go_online slots live hset expire
lapsed = refl

still_held : read_slots (or_else (busy.hashes (presence 11)) []) ≡ some (1, 1)
unfolding claim_slot state hgetall set_active go_online hset expire
still_held = refl

queued-IsOpen : Fifo.IsOpen 110 3 4 queued
queued-IsOpen = Fifo.join-IsOpen 3 4 110 22 (Queue.join 105 21 3 4 busy).1 one_waits
  where
    nobody : Fifo.IsOpen 105 3 4 busy
    nobody =
        unfold claim_slot state hgetall set_active go_online hset expire in
        record { ascending = tt; distinct = tt; arrived = tt }

    one_waits : Fifo.IsOpen 110 3 4 (Queue.join 105 21 3 4 busy).1
    one_waits = IsQueue-later 105 110 _ (omega arith) (Fifo.join-IsOpen 3 4 105 21 busy nobody)

in_order : Fifo.waiting 3 4 queued ≡ 21 ∷ 22 ∷ []
unfolding Queue.join zrank zadd ordered index_of zput claim_slot state hgetall set_active go_online
    hset expire
in_order = refl

not_yet : index_of 23 (Fifo.waiting 3 4 queued) ≡ none
not_yet = rw (in_order) (unfold index_of in refl)

join-IsOpen_example : Fifo.IsOpen 110 3 4 (Queue.join 110 23 3 4 queued).1
join-IsOpen_example = Fifo.join-IsOpen 3 4 110 23 queued queued-IsOpen
