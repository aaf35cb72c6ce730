-- ===== src/Chat/Transcript/Moves.antt =====
-- About `move_to` of apps/chat/services/transcript.py: where the messages are afterwards, and
-- which targets are lawful.
use azm_crm.Prelude.{
  ℕ, ◌+◌, String, Option, none, some, true, false, List, [], ◌∷◌, keep, length, ◌==◌, any, ◌≡◌, ◌≢◌,
  ◌⊎◌, inl, inr, refl, arith, Bool-cases, ==_iff, sym, ◌∙◌,
}
use azm_crm.Tickets.Model.{Ticket, Message}
use azm_crm.Chat.Model.{Conversation}
use azm_crm.Chat.World.{World, find_ticket}
use azm_crm.Chat.Transcript.{
  Moved, moved, not_attachable, no_placeholder, can_attach_to, is_on, move_messages, re_point,
  move_from, move_to, is_settled, is_rival,
}

left_none : (a b : ℕ) (rows : List Message) → a ≢ b → keep (is_on a) (move_messages a b rows) ≡ []
unfolding move_messages
left_none a b [] ne = refl
left_none a b (m ∷ rows) ne = ground (arith, left_none a b rows ne)

all_there :
    (a b : ℕ) (rows : List Message)
    → a ≢ b
    → length (keep (is_on b) (move_messages a b rows))
      ≡ length (keep (is_on b) rows) + length (keep (is_on a) rows)
unfolding move_messages
all_there a b [] ne = refl
all_there a b (m ∷ rows) ne = ground (arith, all_there a b rows ne)

-- How `move_to` comes out. It moved: either the ticket was the conversation's own already and nothing
-- changed, or the target is of the same contact, is not settled and is nobody else's live ticket, all
-- messages of the placeholder are on it, and none is left. Or it refused, and nothing changed.
abbrev pub IsMoved : Conversation → Ticket → World → Moved × World → Type 0
IsMoved c target w (moved t, w') =
    (t.pk ≡ target.pk)
    × (((c.ticket ≡ target.pk) × (w' ≡ w))
        ⊎ ((target.contact ≡ c.contact)
            × (is_settled target.status ≡ false)
            × (any (is_rival c.pk target.pk) w.conversations ≡ false)
            × (keep (is_on c.ticket) w'.messages ≡ [])
            × (length (keep (is_on target.pk) w'.messages)
                ≡ length (keep (is_on target.pk) w.messages)
                  + length (keep (is_on c.ticket) w.messages))))
IsMoved c target w (not_attachable, w') = (can_attach_to c target w ≡ false) × (w' ≡ w)
IsMoved c target w (no_placeholder, w') = w' ≡ w

find_ticket-pk :
    (pk : ℕ) (rows : List Ticket) (t : Ticket) → find_ticket pk rows ≡ some t → t.pk ≡ pk
find_ticket-pk pk [] t e = cc
find_ticket-pk pk (x ∷ rows) t e = ground (arith, find_ticket-pk pk rows t)

can_attach_to_lem :
    (c : Conversation) (t : Ticket) (w : World)
    → can_attach_to c t w ≡ true
    → (t.contact ≡ c.contact)
      × (is_settled t.status ≡ false)
      × (any (is_rival c.pk t.pk) w.conversations ≡ false)
unfolding can_attach_to
can_attach_to_lem c t w h = elim (Bool-cases (t.contact == c.contact)) [
  | inr n ↦ cc (rw n at h)
  | inl same ↦ elim (Bool-cases (is_settled t.status)) [
    | inl s ↦ cc (rw (same, s) at h)
    | inr s ↦ elim (Bool-cases (any (is_rival c.pk t.pk) w.conversations)) [
      | inl r ↦ cc (rw (same, s, r) at h)
      | inr r ↦ ((==_iff t.contact c.contact).0 same, s, r)
    ]
  ]
]

module _ (attached_note : String → ℕ → String) (moved_note : String → String) where
  -- With any texts for the two notes, `move_to` comes out in one of these ways. It returns the
  -- target: then either the target was the conversation's own ticket and nothing changed, or the
  -- target is of the same contact, is neither resolved nor closed, and is no other live
  -- conversation's ticket, no message is left on the placeholder, and the target has as many as
  -- both had. Or it refuses, because `can_attach_to` does or the conversation's ticket has no
  -- row, and nothing changed.
  pub move_to-IsMoved :
      (c : Conversation) (target : Ticket) (actor : ℕ) (w : World)
      → IsMoved c target w (move_to attached_note moved_note c target actor w)
  unfolding move_to
  move_to-IsMoved c target actor w = found (find_ticket c.ticket w.tickets) refl
    where
      found :
          (row : Option Ticket)
          → find_ticket c.ticket w.tickets ≡ row
          → IsMoved c target w (move_from attached_note moved_note c row target actor w)
      found none e = refl
      found (some p) e =
          let own = find_ticket-pk c.ticket w.tickets p e in
          elim (Bool-cases (p.pk == target.pk)) [
            | inl same ↦ rw same (refl, inl (sym own ∙ (==_iff p.pk target.pk).0 same, refl))
            | inr other ↦ elim (Bool-cases (can_attach_to c target w)) [
              | inr refused ↦ rw (other, refused) (refused, refl)
              | inl may ↦
                  let lawful = can_attach_to_lem c target w may in
                  let ne : p.pk ≢ target.pk = (λ k. cc (other, (==_iff p.pk target.pk).1 k)) in
                  rw (other, may)
                    (unfold re_point in
                      rw (← own) (
                        refl,
                        inr (
                          lawful.0,
                          lawful.1,
                          lawful.2,
                          left_none p.pk target.pk w.messages ne,
                          all_there p.pk target.pk w.messages ne,
                        ),
                      ))
            ]
          ]
