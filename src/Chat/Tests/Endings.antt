-- ===== src/Chat/Tests/Endings.antt =====
-- Endings, deliveries and assignments on one desk.
use azm_crm.Prelude.{none, some, [], ◌∷◌, List, true, false, ◌≡◌, refl, All}
use azm_crm.Tickets.Model.{outbound, internal}
use azm_crm.Chat.Model.{Conversation, ended, resolved, idle_timeout}
use azm_crm.Chat.Presence.Roster.{slots}
use azm_crm.Chat.World.{World, ok}
use azm_crm.Chat.Assignment.{assign}
use azm_crm.Chat.Assignment.Outcome.{Outcome, assign-Outcome}
use azm_crm.Chat.Serving.{connect_next_waiting}
use azm_crm.Chat.Serving.Termination.{connect_next_waiting_total}
use azm_crm.Chat.Messaging.{record_and_broadcast}
use azm_crm.Chat.Messaging.Boundary.{IsClean, record_and_broadcast-IsClean}
use azm_crm.Chat.Lifecycle.{close_row, finish}
use azm_crm.Chat.Lifecycle.Ending.{finish_again, finish-ended}
use azm_crm.Chat.Assignment
use azm_crm.Chat.Assignment.{attach, give_back}
use azm_crm.Chat.Presence.{
  release_slot, state, set_active, claim_slot, go_online, agents_with_capacity, is_free, is_online,
  has_capacity, capacity_remaining,
}
use azm_crm.Chat.Redis.{
  hgetall, alive, hset, expire, zrem, zrank, zadd, delete, exists, zrange, zscore,
}
use azm_crm.Chat.Redis.Sorted.{zdrop, zput, ordered, index_of, zfind}
use azm_crm.Chat.Queue
use azm_crm.Chat.Unread
use azm_crm.Chat.Liveness.{mark_seen}
use azm_crm.Chat.Serving.{
  leave_queue, serve_waiting, round, candidate_agents, announce_positions, announce_from,
}
use azm_crm.Chat.Lifecycle.{close, resolve_ticket, announce_ended}
use azm_crm.Chat.Messaging.{broadcast_system}
use azm_crm.Tickets.Lifecycle.{apply_transition, save}
use azm_crm.Chat.Tests.{world, held, first_in_line, base-IsSane}

assign-Outcome_example :
    Outcome 120 first_in_line
      (11 ∷ 12 ∷ [])
      (slots 120 world.redis)
      world.conversations
      (assign first_in_line (11 ∷ 12 ∷ []) world)
assign-Outcome_example = assign-Outcome first_in_line (11 ∷ 12 ∷ []) world base-IsSane

connect_next_waiting_total_example :
    (served : List Conversation) × ((connect_next_waiting 3 4 (11 ∷ []) world).0 ≡ ok served)
connect_next_waiting_total_example = connect_next_waiting_total 3 4 (11 ∷ []) world

record_and_broadcast-IsClean_example :
    All IsClean (record_and_broadcast held "a note" (some 12) outbound internal world).1.sent
record_and_broadcast-IsClean_example =
    record_and_broadcast-IsClean held "a note" (some 12) outbound internal world tt

abbrev closed : Conversation
closed = close resolved (some 11) 120 held

abbrev after : World
after = (finish held resolved (some 11) true world).1

held_ends : finish held resolved (some 11) true world ≡ (ok closed, after)
unfolding finish close_row Assignment.release release_slot state set_active hgetall alive hset
    expire claim_slot go_online leave_queue Queue.leave zrem zdrop Queue.join zrank zadd zput
    ordered index_of Unread.forget Unread.clear delete resolve_ticket apply_transition save
    broadcast_system announce_ended connect_next_waiting serve_waiting round candidate_agents
    agents_with_capacity is_free is_online exists has_capacity capacity_remaining Queue.peek zrange
    zscore zfind assign attach give_back mark_seen announce_positions announce_from
held_ends = refl

finish-ended_example : closed.state ≡ ended
finish-ended_example = finish-ended held resolved (some 11) true world after held_ends

finish_again_example : finish closed idle_timeout none false after ≡ (ok closed, after)
finish_again_example =
    finish_again held resolved idle_timeout (some 11) none true false world after closed held_ends
