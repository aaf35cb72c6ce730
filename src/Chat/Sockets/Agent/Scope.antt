-- ===== src/Chat/Sockets/Agent/Scope.antt =====
-- About the frames of an agent's socket (apps/chat/consumers/agent.py): which conversations they
-- reach.
use azm_crm.Prelude.{
  ℕ, Option, none, some, Bool, true, false, ◌&&◌, List, [], ◌∷◌, ◌≡◌, refl, sym, ◌⊎◌, inl, inr,
  Bool-cases, first, same_id, ==_iff, arith, subst,
}
use azm_crm.Tickets.Model.{shared}
use azm_crm.Chat.Model.{Conversation, User, Group, public_group, staff_group}
use azm_crm.Chat.Messaging.{agent_message}
use azm_crm.Chat.World.{World, M, ◌>>=◌, ◌>>◌, pure}
use azm_crm.Chat.Sockets.Wire.{
  Json, null, flag, number, str, items, fields, Fields, Wire, Wanted, unreadable, negative, row,
  get, is_text,
}
use azm_crm.Chat.Sockets.Agent.{Agent}
use azm_crm.Chat.Sockets.Agent.Frames.{
  is_scoped, find_scoped, find_wanted, conversation_for, reply_in, reply, typing_in, typing,
  clear_wanted, focus, handle,
}
use azm_crm.Chat.Sends.{Frame, Grows, Sends, Sends-bind, Sends-then, Sends-pure, Grows-refl}
use azm_crm.Chat.Sends.Messages.{Sends-record_and_broadcast, Sends-broadcast_typing}
use azm_crm.Chat.Sockets.Supervisor.Silence.{Sends-body_text}

-- A frame to a group of a conversation that is in the table, in the user's department and branch.
abbrev pub Reaches : User → World → Group → Type 0
Reaches user w g =
    (c : Conversation) × (find_scoped user c.pk w ≡ some c)
    × (same_id (some c.department) user.department ≡ true)
    × (same_id (some c.branch) user.branch ≡ true)
    × ((g ≡ public_group c.pk) ⊎ (g ≡ staff_group c.pk))

abbrev pub InScope : User → World → Frame → Type 0
InScope user w (g, p) = Reaches user w g

-- What the query finds passes its test.
first-passes :
    (user : User) (pk : ℕ) (rows : List Conversation) (c : Conversation)
    → first (is_scoped user pk) rows ≡ some c
    → is_scoped user pk c ≡ true
first-passes user pk [] c e = cc
first-passes user pk (r ∷ rows) c e = elim (Bool-cases (is_scoped user pk r)) [
  | inl p ↦ let same : r ≡ c = cc (rw p at e) in subst (λ x. is_scoped user pk x ≡ true) same p
  | inr p ↦ first-passes user pk rows c (rw p at e)
]

and_parts : (a b : Bool) → (a && b) ≡ true → (a ≡ true) × (b ≡ true)
and_parts a b e = ground arith

find_scoped-InScope :
    (user : User) (pk : ℕ) (w : World) (c : Conversation)
    → find_scoped user pk w ≡ some c
    → (find_scoped user c.pk w ≡ some c)
      × (same_id (some c.department) user.department ≡ true)
      × (same_id (some c.branch) user.branch ≡ true)
unfolding find_scoped
find_scoped-InScope user pk w c e =
    let parts = and_parts _ _ (first-passes user pk w.conversations c e) in
    let scope = and_parts _ _ parts.1 in
    let same = (==_iff c.pk pk).0 parts.0 in
    (
      subst (λ n. first (is_scoped user n) w.conversations ≡ some c) (sym same) e,
      scope.0,
      (and_parts _ _ scope.1).0,
    )

module _ (user : User) (w : World) where
  -- What is done with a conversation that a frame names stays in scope, if it does with one that
  -- was found.
  module _ (k : Option Conversation → M Agent) (none_found : Sends (InScope user w) (k none))
      (one_found : (c : Conversation)
        → ((g : Group) → (g ≡ public_group c.pk) ⊎ (g ≡ staff_group c.pk) → Reaches user w g)
        → Sends (InScope user w) (k (some c))) where
    found-InScope :
        (found : Option Conversation)
        → ((c : Conversation)
            → found ≡ some c
            → find_scoped user c.pk w ≡ some c
              × (same_id (some c.department) user.department ≡ true)
              × (same_id (some c.branch) user.branch ≡ true))
        → Sends (InScope user w) (k found)
    found-InScope none h = none_found
    found-InScope (some c) h = let s = h c refl in one_found c (λ g e. (c, s.0, s.1, s.2, e))

    wanted-InScope :
        (wanted : Wanted) → Grows (InScope user w) w.sent ((find_wanted user wanted >>= k) w).1.sent
    wanted-InScope unreadable = Grows-refl (InScope user w) w.sent
    wanted-InScope negative = none_found.grows w
    wanted-InScope (row pk) =
        (found-InScope (find_scoped user pk w) (find_scoped-InScope user pk w)).grows w

    named-InScope :
        (wire : Wire) (v : Json)
        → Grows (InScope user w) w.sent ((conversation_for wire user v >>= k) w).1.sent
    unfolding conversation_for
    named-InScope wire null = none_found.grows w
    named-InScope wire (flag b) = wanted-InScope (wire.to_int (flag b))
    named-InScope wire (number n) = wanted-InScope (wire.to_int (number n))
    named-InScope wire (str s) = wanted-InScope (wire.to_int (str s))
    named-InScope wire (items v) = wanted-InScope (wire.to_int (items v))
    named-InScope wire (fields v) = wanted-InScope (wire.to_int (fields v))

reply-InScope :
    (wire : Wire) (conversation text : Json) (a : Agent) (w : World)
    → Grows (InScope a.user w) w.sent (reply wire conversation text a w).1.sent
unfolding reply agent_message
reply-InScope wire conversation text a w =
    let Q = InScope a.user w in
    named-InScope a.user w (reply_in wire a text) (Sends-pure Q a)
      (λ c may. Sends-bind Q (Sends-body_text Q wire text) λ body.
        Sends-then Q
          (Sends-record_and_broadcast Q c body _ _ shared
            (λ m e. (may _ (inl refl), may _ (inr refl))))
          (Sends-pure Q a))
      wire conversation

typing-InScope :
    (wire : Wire) (conversation : Json) (a : Agent) (w : World)
    → Grows (InScope a.user w) w.sent (typing wire conversation a w).1.sent
unfolding typing
typing-InScope wire conversation a w =
    let Q = InScope a.user w in
    named-InScope a.user w (typing_in a) (Sends-pure Q a)
      (λ c may.
        Sends-then Q (Sends-broadcast_typing Q c _ (may _ (inl refl)) (may _ (inr refl)))
          (Sends-pure Q a))
      wire conversation

focus-InScope :
    (wire : Wire) (v : Json) (a : Agent) (w : World)
    → Grows (InScope a.user w) w.sent (focus wire v a w).1.sent
unfolding focus
focus-InScope wire null a w = Grows-refl (InScope a.user w) w.sent
focus-InScope wire v a w = cleared (wire.to_int v)
  where
    cleared :
        (wanted : Wanted)
        → Grows (InScope a.user w) w.sent ((clear_wanted a.user.pk wanted >> pure a) w).1.sent
    cleared unreadable = Grows-refl (InScope a.user w) w.sent
    cleared negative = Grows-refl (InScope a.user w) w.sent
    cleared (row pk) = Grows-refl (InScope a.user w) w.sent

-- Any frame of an agent that neither closes a conversation nor leaves the desk, well-formed or
-- not: whatever it publishes goes to a group of a conversation of the table that is in the
-- agent's own department and branch.
pub handle-InScope :
    (wire : Wire) (payload : Fields) (a : Agent) (w : World)
    → is_text "close" (get "type" null payload) ≡ false
    → is_text "offline" (get "type" null payload) ≡ false
    → Grows (InScope a.user w) w.sent (handle wire payload a w).1.sent
unfolding handle
handle-InScope wire payload a w stays on =
    let kind = get "type" null payload in
    let conversation = get "conversation" null payload in
    let nothing = Grows-refl (InScope a.user w) w.sent in
    elim (Bool-cases (is_text "message" kind)) [
      | inl e ↦ rw e (reply-InScope wire conversation (get "text" (str "") payload) a w)
      | inr e ↦ elim (Bool-cases (is_text "typing" kind)) [
        | inl d ↦ rw (e, d) (typing-InScope wire conversation a w)
        | inr d ↦ elim (Bool-cases (is_text "heartbeat" kind)) [
          | inl b ↦ rw (e, d, b) nothing
          | inr b ↦ elim (Bool-cases (is_text "online" kind)) [
            | inl o ↦ rw (e, d, b, o) nothing
            | inr o ↦ elim (Bool-cases (is_text "focus" kind)) [
              | inl f ↦ rw (e, d, b, o, on, f) (focus-InScope wire conversation a w)
              | inr f ↦ rw (e, d, b, o, on, f, stays) nothing
            ]
          ]
        ]
      ]
    ]
