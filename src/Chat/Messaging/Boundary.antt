-- ===== src/Chat/Messaging/Boundary.antt =====
-- About apps/chat/services/messaging.py: what may stand in a frame to the group that the
-- visitor's socket joins.
use azm_crm.Prelude.{
  ℕ, String, Option, none, some, Bool, true, false, List, [], ◌∷◌, ◌++◌, ◌≡◌, refl, arith, All,
  All-append, keep, Bool-cases, inl, inr,
}
use azm_crm.Core.Text.{strip, is_empty}
use azm_crm.Tickets.Model.{Message, Direction, Visibility, shared, internal}
use azm_crm.Chat.Model.{
  Conversation, Html, message_html, whisper_html, system_html, Group, public_group, staff_group,
  agent_group, Payload, chat_message, chat_system,
}
use azm_crm.Chat.Redis.{Redis}
use azm_crm.Chat.Presence.{has_socket}
use azm_crm.Chat.Pending
use azm_crm.Chat.World.{World, ok}
use azm_crm.Chat.Messaging.{deliver, hold_if_away, record_and_broadcast, whisper}

-- What may stand in a frame to the public group.
abbrev pub IsShownHtml : Html → Type 0
IsShownHtml (message_html m c) = m.visibility ≡ shared
IsShownHtml (whisper_html m c) = ⊥
IsShownHtml (system_html n) = Unit

abbrev pub IsShown : Payload → Type 0
IsShown (chat_message h) = IsShownHtml h
IsShown (chat_system h) = IsShownHtml h
IsShown _ = Unit

abbrev pub IsClean : Group × Payload → Type 0
IsClean (public_group c, p) = IsShown p
IsClean (staff_group c, p) = Unit
IsClean (agent_group u, p) = Unit

-- The frames that the visitor's socket is sent.
abbrev pub is_to_public : Group × Payload → Bool
is_to_public (public_group c, p) = true
is_to_public (staff_group c, p) = false
is_to_public (agent_group u, p) = false

abbrev pub to_public : World → List (Group × Payload)
to_public w = keep is_to_public w.sent

-- Holding a note touches the store alone.
pub hold_if_away_lem :
    (agent : Option ℕ) (c : Conversation) (m : Message) (h : Html) (w : World)
    → (r : Redis) × (hold_if_away agent c m h w ≡ (ok tt, record w { redis = r }))
unfolding hold_if_away
hold_if_away_lem none c m h w = (w.redis, refl)
hold_if_away_lem (some agent) c m h w = elim (Bool-cases (has_socket w.now agent w.redis).0) [
  | inl e ↦ ((has_socket w.now agent w.redis).1, rw e)
  | inr e ↦
      ((Pending.hold w.settings w.now c.pk agent m.pk h (has_socket w.now agent w.redis).1).1, rw e)
]

deliver-IsClean :
    (v : Visibility) (c : Conversation) (m : Message) (w : World)
    → m.visibility ≡ v
    → All IsClean w.sent
    → All IsClean (deliver v c m w).1.sent
unfolding deliver
deliver-IsClean internal c m w e h =
    let note : Group × Payload = (staff_group c.pk, chat_message (whisper_html m c.pk)) in
    let w' : World = record w { sent = w.sent ++ note ∷ [] } in
    rw (hold_if_away_lem c.assigned_to c m (whisper_html m c.pk) w').1
      (All-append IsClean w.sent (note ∷ []) h (tt, tt))
deliver-IsClean shared c m w e h =
    All-append IsClean _ _ (All-append IsClean w.sent _ h (e, tt)) (tt, tt)

-- If no frame sent to a visitor's group carried a private note, then none does after
-- `record_and_broadcast`, whoever writes, whatever the body and whichever the visibility.
pub record_and_broadcast-IsClean :
    (c : Conversation) (body : String) (author : Option ℕ) (d : Direction) (v : Visibility)
    (w : World)
    → All IsClean w.sent
    → All IsClean (record_and_broadcast c body author d v w).1.sent
unfolding record_and_broadcast
record_and_broadcast-IsClean c body author d v w h = elim (Bool-cases (is_empty (strip body))) [
  | inl e ↦ rw e h
  | inr e ↦ rw e (deliver-IsClean v c _ _ refl h)
]

keep-append_one :
    (g : Group × Payload) (xs : List (Group × Payload))
    → is_to_public g ≡ false
    → keep is_to_public (xs ++ g ∷ []) ≡ keep is_to_public xs
keep-append_one g [] h = rw h
keep-append_one g (x ∷ xs) h = ground (arith, keep-append_one g xs h)

deliver_silent :
    (c : Conversation) (m : Message) (w : World)
    → to_public (deliver internal c m w).1 ≡ to_public w
unfolding deliver
deliver_silent c m w =
    let note : Group × Payload = (staff_group c.pk, chat_message (whisper_html m c.pk)) in
    let w' : World = record w { sent = w.sent ++ note ∷ [] } in
    rw (hold_if_away_lem c.assigned_to c m (whisper_html m c.pk) w').1
      (keep-append_one note w.sent refl)

-- A whisper adds nothing to the frames that were sent to visitors' groups.
pub whisper_silent :
    (c : Conversation) (supervisor : ℕ) (body : String) (w : World)
    → to_public (whisper c supervisor body w).1 ≡ to_public w
unfolding whisper record_and_broadcast
whisper_silent c supervisor body w = elim (Bool-cases (is_empty (strip body))) [
  | inl e ↦ rw e
  | inr e ↦ rw e (deliver_silent c _ _)
]
