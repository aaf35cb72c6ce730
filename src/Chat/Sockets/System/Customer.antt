-- ===== src/Chat/Sockets/System/Customer.antt =====
-- About a visitor's socket from its handshake on (apps/chat/consumers/visitor.py), while the rest
-- of the chat goes its way.
use azm_crm.Prelude.{
  ℕ, String, Option, none, some, Bool, true, false, [], ◌∷◌, ◌++◌, ◌≡◌, refl, sym, ap, All,
  All-append, subst, Bool-cases, inl, inr,
}
use azm_crm.Chat.Model.{Conversation, public_group}
use azm_crm.Chat.World.{World, M, Result, ok, raised, next}
use azm_crm.Chat.Messaging.{visitor_message, broadcast_typing}
use azm_crm.Chat.Lifecycle.{finish}
use azm_crm.Chat.Tokens.{Signer}
use azm_crm.Chat.Sockets.Wire.{Wire, Fields, parse, get, is_text, null, str, body_text}
use azm_crm.Chat.Sockets.Limiter.{Limiter, allow}
use azm_crm.Chat.Sockets.{Line}
use azm_crm.Chat.Sockets.Visitor.{
  Visitor, Query, connect, receive, handle, handle_if, record_text, authorize, value_of,
  open_socket,
}
use azm_crm.Chat.Sends.{Holds}
use azm_crm.Chat.Sockets.System.{Reach, Step, Reach-IsClean}
use azm_crm.Chat.Sockets.System.Hearing.{
  IsForCustomer, heard, heard-IsForCustomer, history-IsForCustomer,
}

-- A socket after its handshake, in a state that the chat may come to: its own frames, and whatever
-- else is called in between.
pub data Session (k : Signer) (query : Query) : World → Visitor → Type 0 where
  joined :
      (second at : ℕ) {w u : World} {v : Visitor}
      → Reach w
      → connect k query second at w ≡ (ok (some v), u)
      → Session k query u v
  frame :
      (wire : Wire) (at : ℕ) (text : Option String) {w u : World} {v v' : Visitor}
      → Session k query w v
      → receive wire at text v w ≡ (ok v', u)
      → Session k query u v'
  meanwhile : {w u : World} {v : Visitor} → Session k query w v → Step w u → Session k query u v

-- The socket is in the one group of some conversation, and was sent nothing but what is for the
-- customer.
abbrev pub IsOuter : Line → Type 0
IsOuter l = ((c : ℕ) × (l.groups ≡ public_group c ∷ [])) × All IsForCustomer l.out

Holds-any :
    {A B : Type 0} (P : B → Type 0) (r : Result A) (f : A → M B) (w : World)
    → ((a : A) (u : World) → Holds P (f a u).0)
    → Holds P (next r f w).0
Holds-any P (ok a) f w h = h a w
Holds-any P (raised e) f w h = tt

abbrev OnLine : Line → Visitor → Type 0
OnLine l v = v.line ≡ l

handle-OnLine :
    (wire : Wire) (v : Visitor) (payload : Fields) (w : World)
    → Holds (OnLine v.line) (handle wire v payload w).0
unfolding handle record_text broadcast_typing
handle-OnLine wire v payload w =
    let kind = get "type" null payload in
    elim (Bool-cases (is_text "message" kind)) [
      | inl e ↦ rw e (
          Holds-any (OnLine v.line) (body_text wire (get "text" (str "") payload) w).0 _ _ λ body u.
            Holds-any (OnLine v.line) (visitor_message v.conversation body u).0 _ _
              λ result u'. refl)
      | inr e ↦ elim (Bool-cases (is_text "typing" kind)) [
        | inl d ↦ rw (e, d) refl
        | inr d ↦ elim (Bool-cases (is_text "close" kind)) [
          | inl b ↦
              rw (e, d, b)
                (Holds-any (OnLine v.line) (finish v.conversation _ none false w).0 _ _ λ c u. refl)
          | inr b ↦ rw (e, d, b) refl
        ]
      ]
    ]

receive-IsOuter :
    (wire : Wire) (at : ℕ) (text : Option String) (v : Visitor) (w : World)
    → IsOuter v.line
    → Holds (λ (v' : Visitor). IsOuter v'.line) (receive wire at text v w).0
unfolding receive
receive-IsOuter wire at text v w h = after (allow at v.limiter) _
  where
    stays :
        (r : Result Visitor) → Holds (OnLine v.line) r → Holds (λ (v' : Visitor). IsOuter v'.line) r
    stays (ok v') e = subst IsOuter (sym e) h
    stays (raised x) e = tt

    after :
        (passed : Bool × Limiter) (u : World)
        → Holds (λ (v' : Visitor). IsOuter v'.line) (handle_if wire (parse wire text) v passed u).0
    after (false, l) u = (h.0, All-append IsForCustomer v.line.out _ h.1 (tt, tt))
    after (true, l) u = stays _ (handle-OnLine wire (record v { limiter = l }) (parse wire text) u)

abbrev Opened : Option Visitor → Type 0
Opened none = Unit
Opened (some v) = IsOuter v.line

open_socket-IsOuter :
    (second at : ℕ) (found : Option Conversation) (w : World)
    → Holds Opened (open_socket second at found w).0
open_socket-IsOuter second at none w = tt
open_socket-IsOuter second at (some c) w = ((c.pk, refl), (tt, history-IsForCustomer c _))

connect-IsOuter :
    (k : Signer) (query : Query) (second at : ℕ) (w : World)
    → Holds Opened (connect k query second at w).0
unfolding connect
connect-IsOuter k query second at w =
    open_socket-IsOuter second at (authorize k (value_of "token" query) w) w

Session-IsOuter :
    {k : Signer} {query : Query} {w : World} {v : Visitor} → Session k query w v → IsOuter v.line
Session-IsOuter {k} {query} (joined second at {w} r e) =
    subst (λ r. Holds Opened r) (ap (λ p. p.0) e) (connect-IsOuter k query second at w)
Session-IsOuter (frame wire at text {w} {u} {v} s e) =
    subst (λ r. Holds (λ (v' : Visitor). IsOuter v'.line) r) (ap (λ p. p.0) e)
      (receive-IsOuter wire at text v w (Session-IsOuter s))
Session-IsOuter (meanwhile s st) = Session-IsOuter s

Session-Reach :
    {k : Signer} {query : Query} {w : World} {v : Visitor} → Session k query w v → Reach w
Session-Reach {k} {query} (joined second at r e) =
    Reach.next r (Step.visitor_opens k query second at (ap (λ p. p.1) e))
Session-Reach (frame wire at text {v = v} s e) =
    Reach.next (Session-Reach s) (Step.visitor_frame wire at text v (ap (λ p. p.1) e))
Session-Reach (meanwhile s st) = Reach.next (Session-Reach s) st

-- Whatever sockets open, frames arrive, sweeps run and accounts are deactivated, in whatever
-- order: a visitor's socket, from its handshake on, is in the public group of one conversation
-- and in no other; neither what it was sent nor what the groups that it is in were ever sent
-- holds a private note, and each message there is one that is marked as shared.
pub Session-IsForCustomer :
    (k : Signer) (query : Query) (w : World) (v : Visitor)
    → Session k query w v
    → ((c : ℕ) × (v.line.groups ≡ public_group c ∷ []))
      × All IsForCustomer (v.line.out ++ heard v.line.groups w.sent)
Session-IsForCustomer k query w v s =
    let outer = Session-IsOuter s in
    let clean = Reach-IsClean (Session-Reach s) in
    (
      outer.0,
      All-append IsForCustomer v.line.out _ outer.1 (
          subst (λ gs. All IsForCustomer (heard gs w.sent)) (sym outer.0.1)
            (heard-IsForCustomer outer.0.0 w.sent clean)),
    )
