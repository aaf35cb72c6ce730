-- ===== src/Chat/Tests/Sweeping.antt =====
-- An idle conversation, and one whose transcript is moved.
use azm_crm.Prelude.{ℕ, String, some, ◌≡◌, refl}
use azm_crm.Chat.Model.{Conversation}
use azm_crm.Chat.World.{ok, find_conversation}
use azm_crm.Chat.Sweeps.{sweep_idle}
use azm_crm.Chat.Sweeps.Warning.{warned_once}
use azm_crm.Chat.Transcript.{move_to}
use azm_crm.Chat.Transcript.Moves.{IsMoved, move_to-IsMoved}
use azm_crm.Chat.Tests.{world, held, ticket}

warned_once_example :
    let w' = (sweep_idle 600 600 480 held world).1 in
    (c' : Conversation) × (find_conversation 20 w'.conversations ≡ some c')
    × (sweep_idle 660 600 480 c' w' ≡ (ok (0, 0), w'))
warned_once_example = warned_once held 600 660 600 480 world refl refl refl refl

abbrev attached : String → ℕ → String
attached reference count = reference

abbrev farewell : String → String
farewell reference = reference

move_to-IsMoved_example :
    IsMoved held (ticket 30) world (move_to attached farewell held (ticket 30) 11 world)
move_to-IsMoved_example = move_to-IsMoved attached farewell held (ticket 30) 11 world
