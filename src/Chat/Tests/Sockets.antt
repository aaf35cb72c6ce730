-- ===== src/Chat/Tests/Sockets.antt =====
-- Sockets of a visitor and of an observer, on one desk.
use azm_crm.Prelude.{ℕ, arith, some, false, [], ◌∷◌, ◌++◌, ◌≡◌, refl, ◌≤◌, ◌+◌, ◌*◌, All}
use text.Mathlib.Text.{◌==◌ as str_eq}
use azm_crm.Chat.Model.{User, supervisor, public_group, is_open}
use azm_crm.Chat.Liveness.{mark_seen}
use azm_crm.Chat.Redis.{hset, expire}
use azm_crm.Chat.Messaging.{history_for_visitor}
use azm_crm.Tickets.Visibility.{public_messages_for, by_created}
use azm_crm.Chat.World.{World, ok}
use azm_crm.Chat.Tokens.{Signer, read, named, matches}
use azm_crm.Chat.Sockets.Wire.{Fields, str, null, fields, field, end, Wire, row, get, is_text}
use azm_crm.Chat.Sockets.Limiter.{fresh}
use azm_crm.Chat.Sockets.Limiter.Rate.{run, run-fresh_bound, patient_passes}
use azm_crm.Chat.Sockets.Visitor.{Visitor, Query, connect, opened, authorize, value_of}
use azm_crm.Chat.Sends.{Grows}
use azm_crm.Chat.Sockets.Agent
use azm_crm.Chat.Sockets.Agent.{Agent}
use azm_crm.Chat.Sockets.Agent.Frames.{handle}
use azm_crm.Chat.Sockets.Agent.Scope.{InScope, handle-InScope}
use azm_crm.Chat.Sockets.Supervisor
use azm_crm.Chat.Sockets.Supervisor.{Supervisor}
use azm_crm.Chat.Sockets.Supervisor.Silence.{Watched, may_watch, life, life-Watched}
use azm_crm.Chat.Sockets.System.{Reach, Step}
use azm_crm.Chat.Sockets.System.Hearing.{IsForCustomer, heard}
use azm_crm.Chat.Sockets.System.Customer.{Session, Session-IsForCustomer}
use azm_crm.Chat.Tests.{world, first_in_line, user}

run-fresh_bound_example :
    (run (0 ∷ 1 ∷ 5 ∷ []) (fresh 10 1 2 0)).0 * 10 + 0 * 2
    ≤ 1 * 10 + (run (0 ∷ 1 ∷ 5 ∷ []) (fresh 10 1 2 0)).1.checked_at * 2
run-fresh_bound_example = run-fresh_bound 10 1 2 0 (0 ∷ 1 ∷ 5 ∷ []) (omega arith)

patient_passes_example : (run (3 ∷ 8 ∷ 13 ∷ []) (fresh 10 1 2 0)).0 ≡ 3
patient_passes_example =
    patient_passes 10 1 2 5 0 3 (8 ∷ 13 ∷ []) (omega arith) (omega arith) (omega arith)

-- Every text is the same whisper.
abbrev wire : Wire
wire = record {
  loads =
      λ s. some (fields (field "type" (str "whisper") (field "text" (str "offer a refund") end)));
  to_int = λ v. row 20;
  is_zero = λ s. false;
}

abbrev lead : User
lead = record (user 13) { role = supervisor }

life-Watched_example :
    Watched
      (may_watch (some lead) (some 20) world)
      world
      (life wire (some lead) (some 20) 10 0 ((5, some "frame") ∷ []) world).1
life-Watched_example = life-Watched wire (some lead) (some 20) 10 0 ((5, some "frame") ∷ []) world

-- Every token names conversation 21, and is its own fingerprint.
abbrev signer : Signer
signer = record {
  dumps = λ now claims. "abc";
  loads = λ max_age now token. some (("conversation", 21) ∷ []);
  sha256 = λ s. s;
  compare_digest = str_eq;
}

abbrev query : Query
query = ("token", "abc" ∷ []) ∷ []

abbrev visitor : Visitor
visitor = opened 10 0 first_in_line []

abbrev entered : World
entered = (connect signer query 10 0 world).1

enters : connect signer query 10 0 world ≡ (ok (some visitor), entered)
unfolding connect authorize value_of read named matches is_open fresh history_for_visitor
    public_messages_for by_created mark_seen hset expire
enters = refl

abbrev observer : Supervisor
observer = Supervisor.watching 10 0 lead first_in_line 50

-- The visitor comes, and then an observer whispers.
abbrev whispered : World
whispered = (Supervisor.receive wire 5 (some "frame") observer entered).1

Session-IsForCustomer_example :
    ((c : ℕ) × (visitor.line.groups ≡ public_group c ∷ []))
    × All IsForCustomer (visitor.line.out ++ heard visitor.line.groups whispered.sent)
Session-IsForCustomer_example = Session-IsForCustomer signer query whispered visitor (
    Session.meanwhile (Session.joined 10 0 (Reach.start refl) enters)
      (Step.observer_frame wire 5 (some "frame") observer refl))

-- Agent 11 asks for a typing sign on conversation 20, which is in their scope.
abbrev typed : Fields
typed = field "type" (str "typing") (field "conversation" (str "20") end)

abbrev desk_agent : Agent
desk_agent = Agent.opened 10 0 (user 11)

not_close : is_text "close" (get "type" null typed) ≡ false
unfolding get
not_close = refl

not_offline : is_text "offline" (get "type" null typed) ≡ false
unfolding get
not_offline = refl

handle-InScope_example :
    Grows (InScope (user 11) world) world.sent (handle wire typed desk_agent world).1.sent
handle-InScope_example = handle-InScope wire typed desk_agent world not_close not_offline
