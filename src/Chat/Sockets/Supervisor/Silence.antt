-- ===== src/Chat/Sockets/Supervisor/Silence.antt =====
-- About apps/chat/consumers/supervisor.py: what the socket of an observer publishes, from the
-- handshake to the end.
use azm_crm.Prelude.{
  ℕ, String, Option, none, some, Bool, true, false, List, [], ◌∷◌, if◌then◌else◌, refl, ◌∙◌, ◌≡◌,
  Bool-cases, inl, inr, not, subst,
}
use azm_crm.Core.Text.{strip, is_empty}
use azm_crm.Tickets.Model.{Message, Direction, Visibility, internal, shared}
use azm_crm.Chat.Model.{Conversation, User, Html, staff_group, observing}
use azm_crm.Chat.World.{World, M, Result, ok, raised, next, ◌>>=◌, ◌>>◌, pure}
use azm_crm.Chat.Messaging.{
  Recorded, broadcast_system, record_and_broadcast, deliver, whisper, hold_if_away,
}
use azm_crm.Chat.Messaging.Boundary.{hold_if_away_lem}
use azm_crm.Chat.Sockets.Wire.{
  Json, null, flag, number, str, items, fields, Wire, Fields, body_text, truthy, get, is_text,
  is_hashable, parse, empty_or_raise,
}
use azm_crm.Chat.Sockets.Limiter.{Limiter, allow}
use azm_crm.Chat.Sockets.Supervisor.{
  Supervisor, is_observer_role, authorize, open_observation, close_observation, watching, watch,
  connect, disconnect, is_customer_directed, record_whisper, handle, handle_if, receive,
}
use azm_crm.Chat.Sends.{
  Frame, Grows, Sends, Holds, Sends-bind, Sends-bind_where, Sends-then, Sends-pure, Sends-raise,
  Sends-if, Grows-refl,
}
use azm_crm.Chat.Sends.Messages.{Sends-record_and_broadcast, Sends-broadcast_staff}

-- Nothing goes out but to the staff group of one conversation.
abbrev pub ToStaff : ℕ → Frame → Type 0
ToStaff c (g, p) = g ≡ staff_group c

Sends-empty_or_raise : (Q : Frame → Type 0) (b : Bool) → Sends Q (empty_or_raise b)
Sends-empty_or_raise Q true = Sends-raise Q _
Sends-empty_or_raise Q false = Sends-pure Q ""

pub Sends-body_text : (Q : Frame → Type 0) (wire : Wire) (v : Json) → Sends Q (body_text wire v)
unfolding body_text
Sends-body_text Q wire (str s) = Sends-pure Q s
Sends-body_text Q wire null = Sends-empty_or_raise Q (truthy wire null)
Sends-body_text Q wire (flag b) = Sends-empty_or_raise Q (truthy wire (flag b))
Sends-body_text Q wire (number n) = Sends-empty_or_raise Q (truthy wire (number n))
Sends-body_text Q wire (items v) = Sends-empty_or_raise Q (truthy wire (items v))
Sends-body_text Q wire (fields v) = Sends-empty_or_raise Q (truthy wire (fields v))

Sends-record_whisper :
    (wire : Wire) (text : Json) (v : Supervisor)
    → Sends (ToStaff v.conversation.pk) (record_whisper wire text v)
unfolding record_whisper whisper
Sends-record_whisper wire text v =
    let Q = ToStaff v.conversation.pk in
    Sends-bind Q (Sends-body_text Q wire text) λ body.
      Sends-bind Q (Sends-record_and_broadcast Q v.conversation body _ _ internal (λ m. refl))
        λ result. Sends-pure Q _

Sends-handle :
    (wire : Wire) (payload : Fields) (v : Supervisor)
    → Sends (ToStaff v.conversation.pk) (handle wire payload v)
unfolding handle
Sends-handle wire payload v =
    let Q = ToStaff v.conversation.pk in
    let kind = get "type" null payload in
    Sends-if Q (not (is_hashable kind)) (Sends-raise Q {A = Supervisor} _) (
      Sends-if Q (is_customer_directed kind) (Sends-pure Q _) (
        Sends-if Q (is_text "whisper" kind)
          (Sends-record_whisper wire (get "text" (str "") payload) v) (Sends-pure Q v)))

pub Sends-receive :
    (wire : Wire) (at : ℕ) (frame : Option String) (v : Supervisor)
    → Sends (ToStaff v.conversation.pk) (receive wire at frame v)
unfolding receive
Sends-receive wire at frame v = Sends-handle_if (allow at v.limiter)
  where
    Sends-handle_if :
        (passed : Bool × Limiter)
        → Sends (ToStaff v.conversation.pk) (handle_if wire (parse wire frame) v passed)
    Sends-handle_if (false, l) = Sends-pure (ToStaff v.conversation.pk) _
    Sends-handle_if (true, l) = Sends-handle wire (parse wire frame) (record v { limiter = l })

-- The same conversation, in the hands of the same person.
abbrev IsSame : Supervisor → Supervisor → Type 0
IsSame v v' = v'.conversation.pk ≡ v.conversation.pk

hold_if_away-Holds :
    (agent : Option ℕ) (c : Conversation) (m : Message) (h : Html) (r : Recorded) (w : World)
    → (P : Recorded → Type 0) → P r
    → Holds P ((hold_if_away agent c m h >> pure r) w).0
hold_if_away-Holds agent c m h r w P p = rw (hold_if_away_lem agent c m h w).1 p

deliver-pk :
    (v : Visibility) (c : Conversation) (m : Message) (w : World)
    → Holds (λ (r : Recorded). r.1.pk ≡ c.pk) (deliver v c m w).0
unfolding deliver
deliver-pk internal c m w = hold_if_away-Holds c.assigned_to c m _ (some m, c) _ _ refl
deliver-pk shared c m w = refl

record_and_broadcast-pk :
    (c : Conversation) (body : String) (author : Option ℕ) (d : Direction) (v : Visibility)
    (w : World)
    → Holds (λ (r : Recorded). r.1.pk ≡ c.pk) (record_and_broadcast c body author d v w).0
unfolding record_and_broadcast
record_and_broadcast-pk c body author d v w = elim (Bool-cases (is_empty (strip body))) [
  | inl e ↦ rw e refl
  | inr e ↦ rw e (deliver-pk v c _ _)
]

Holds-next :
    {A B : Type 0} (P : B → Type 0) (r : Result A) (f : A → M B) (w : World)
    → ((a : A) (u : World) → Holds P (f a u).0)
    → Holds P (next r f w).0
Holds-next P (ok a) f w h = h a w
Holds-next P (raised e) f w h = tt

Holds-next_where :
    {A B : Type 0} (O : A → Type 0) (P : B → Type 0) (r : Result A) (f : A → M B) (w : World)
    → Holds O r
    → ((a : A) (u : World) → O a → Holds P (f a u).0)
    → Holds P (next r f w).0
Holds-next_where O P (ok a) f w o h = h a w o
Holds-next_where O P (raised e) f w o h = tt

record_whisper-IsSame :
    (wire : Wire) (text : Json) (v : Supervisor) (w : World)
    → Holds (IsSame v) (record_whisper wire text v w).0
unfolding record_whisper whisper
record_whisper-IsSame wire text v w = Holds-next (IsSame v) (body_text wire text w).0 _ _ λ body u.
    Holds-next_where (λ (r : Recorded). r.1.pk ≡ v.conversation.pk) (IsSame v)
      (record_and_broadcast v.conversation body _ _ _ u).0 _ _
      (record_and_broadcast-pk v.conversation body _ _ _ u) λ r u' same. same

handle-IsSame :
    (wire : Wire) (payload : Fields) (v : Supervisor) (w : World)
    → Holds (IsSame v) (handle wire payload v w).0
unfolding handle
handle-IsSame wire payload v w =
    let kind = get "type" null payload in
    elim (Bool-cases (not (is_hashable kind))) [
      | inl e ↦ rw e tt
      | inr e ↦ elim (Bool-cases (is_customer_directed kind)) [
        | inl d ↦ rw (e, d) refl
        | inr d ↦ elim (Bool-cases (is_text "whisper" kind)) [
          | inl k ↦ rw (e, d, k) (record_whisper-IsSame wire _ v w)
          | inr k ↦ rw (e, d, k) refl
        ]
      ]
    ]

receive-IsSame :
    (wire : Wire) (at : ℕ) (frame : Option String) (v : Supervisor) (w : World)
    → Holds (IsSame v) (receive wire at frame v w).0
unfolding receive
receive-IsSame wire at frame v w = handle_if-IsSame (allow at v.limiter)
  where
    handle_if-IsSame :
        (passed : Bool × Limiter)
        → Holds (IsSame v) (handle_if wire (parse wire frame) v passed w).0
    handle_if-IsSame (false, l) = refl
    handle_if-IsSame (true, l) = handle-IsSame wire (parse wire frame) (record v { limiter = l }) w

-- The frames that the other end sends, each with the moment of its arrival, and then the end.
unfoldable pub session : Wire → List (ℕ × Option String) → Supervisor → M (Unit {0})
session wire [] v = do disconnect v; pure tt
session wire ((at, frame) ∷ frames) v = do v' ← receive wire at frame v; session wire frames v'

pub Sends-disconnect : (v : Supervisor) → Sends (ToStaff v.conversation.pk) (disconnect v)
unfolding disconnect close_observation
Sends-disconnect v =
    let Q = ToStaff v.conversation.pk in
    Sends-then Q (Sends-broadcast_staff Q v.conversation _ refl)
      (record { grows = λ w. Grows-refl Q w.sent })

pub session-ToStaff :
    (wire : Wire) (frames : List (ℕ × Option String)) (c : ℕ) (v : Supervisor)
    → v.conversation.pk ≡ c
    → Sends (ToStaff c) (session wire frames v)
unfolding session
session-ToStaff wire [] c v e =
    Sends-then (ToStaff c) (subst (λ n. Sends (ToStaff n) (disconnect v)) e (Sends-disconnect v))
      (Sends-pure (ToStaff c) tt)
session-ToStaff wire ((at, frame) ∷ frames) c v e =
    Sends-bind_where (ToStaff c) (IsSame v) (receive wire at frame v) (session wire frames)
      (subst (λ n. Sends (ToStaff n) (receive wire at frame v)) e (Sends-receive wire at frame v))
      (receive-IsSame wire at frame v) λ v' same. session-ToStaff wire frames c v' (same ∙ e)

-- The conversation that a handshake may open: somebody is signed in, with an observer's role, and
-- the number is that of a conversation of their own department and branch.
abbrev pub may_watch : Option User → Option ℕ → World → Option Conversation
may_watch none wanted w = none
may_watch (some user) wanted w =
    if is_observer_role user.role then authorize user wanted w else none

abbrev pub live : Wire → List (ℕ × Option String) → Option Supervisor → M (Unit {0})
live wire frames none = pure tt
live wire frames (some v) = session wire frames v

-- A connection from the handshake to its end.
abbrev pub life : Wire → Option User → Option ℕ → ℕ → ℕ → List (ℕ × Option String) → M (Unit {0})
life wire user wanted second at frames = do v ← connect user wanted second at; live wire frames v

abbrev pub Watched : Option Conversation → World → World → Type 0
Watched none w w' = w' ≡ w
Watched (some c) w w' = Grows (ToStaff c.pk) w.sent w'.sent

module _ (wire : Wire) (user : User) (second at : ℕ) (frames : List (ℕ × Option String)) where
  Sends-watch :
      (c : Conversation) → Sends (ToStaff c.pk) (watch second at user (some c) >>= live wire frames)
  unfolding open_observation broadcast_system session
  Sends-watch c =
      let Q = ToStaff c.pk in
      let announced = Sends-broadcast_staff Q c (observing user.full_name) refl in
      record {
        grows = λ w.
            (Sends-then Q announced
                (session-ToStaff wire frames c.pk (watching second at user c w.next_pk) refl)).grows
              (open_observation c.pk user.pk w).1;
      }

  watched :
      (found : Option Conversation) (w : World)
      → Watched found w ((watch second at user found >>= live wire frames) w).1
  watched none w = refl
  watched (some c) w = (Sends-watch c).grows w

-- An observer's connection, from the handshake to its end and whatever frames arrive: if the
-- handshake is refused, nothing at all is changed; else every frame that it publishes goes to the
-- staff group of the conversation that it was admitted to.
pub life-Watched :
    (wire : Wire) (user : Option User) (wanted : Option ℕ) (second at : ℕ)
    (frames : List (ℕ × Option String)) (w : World)
    → Watched (may_watch user wanted w) w (life wire user wanted second at frames w).1
unfolding connect
life-Watched wire none wanted second at frames w = refl
life-Watched wire (some user) wanted second at frames w =
    elim (Bool-cases (is_observer_role user.role)) [
      | inl e ↦ rw e (watched wire user second at frames (authorize user wanted w) w)
      | inr e ↦ rw e refl
    ]
