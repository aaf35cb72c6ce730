-- ===== src/Chat/Sockets/System/Hearing.antt =====
-- About the visitor's socket in the chat as a whole (apps/chat/consumers/visitor.py): what it is
-- ever sent.
use azm_crm.Prelude.{
  ℕ, Bool, true, false, ◌&&◌, List, [], ◌∷◌, ◌≡◌, refl, All, any, keep, map, Bool-cases, inl, inr,
  if◌then◌else◌, ◌==◌, leb,
}
use azm_crm.Tickets.Model.{Message, Visibility, shared, internal}
use azm_crm.Tickets.Visibility.{public_messages_for, by_created, place, is_public}
use azm_crm.Chat.Model.{
  Conversation, message_html, Group, public_group, staff_group, agent_group, Payload, chat_message,
  chat_system, chat_typing, chat_state, chat_ended, chat_desk_closed, chat_unread, chat_disconnect,
}
use azm_crm.Chat.World.{World}
use azm_crm.Chat.Messaging.{history_for_visitor}
use azm_crm.Chat.Messaging.Boundary.{IsClean, IsShown, IsShownHtml}
use azm_crm.Chat.Sockets.{Out, html, forward, group_eq}
use azm_crm.Chat.Sends.{Frame}

-- What a socket may be sent: a message that is marked as shared, never a private note.
abbrev pub IsForCustomer : Out → Type 0
IsForCustomer (html h) = IsShownHtml h
IsForCustomer _ = Unit

-- What a socket in these groups is handed of the frames that were published.
abbrev pub heard : List Group → List Frame → List Out
heard groups [] = []
heard groups ((g, p) ∷ fs) =
    let rest = heard groups fs in if any (group_eq g) groups then forward p ∷ rest else rest

forward-IsForCustomer : (p : Payload) → IsShown p → IsForCustomer (forward p)
unfolding forward
forward-IsForCustomer (chat_message h) k = k
forward-IsForCustomer (chat_system h) k = k
forward-IsForCustomer (chat_typing who) k = tt
forward-IsForCustomer (chat_state n) k = tt
forward-IsForCustomer (chat_ended r) k = tt
forward-IsForCustomer (chat_desk_closed a b c) k = tt
forward-IsForCustomer chat_unread k = tt
forward-IsForCustomer chat_disconnect k = tt

-- A socket in a visitor's group alone.
pub heard-IsForCustomer :
    (c : ℕ) (fs : List Frame) → All IsClean fs → All IsForCustomer (heard (public_group c ∷ []) fs)
heard-IsForCustomer c [] h = tt
heard-IsForCustomer c ((public_group a, p) ∷ fs) h = elim (Bool-cases (a == c)) [
  | inl e ↦ rw e (forward-IsForCustomer p h.0, heard-IsForCustomer c fs h.1)
  | inr e ↦ rw e (heard-IsForCustomer c fs h.1)
]
heard-IsForCustomer c ((staff_group a, p) ∷ fs) h = heard-IsForCustomer c fs h.1
heard-IsForCustomer c ((agent_group a, p) ∷ fs) h = heard-IsForCustomer c fs h.1

abbrev IsShared : Message → Type 0
IsShared m = m.visibility ≡ shared

place-IsShared :
    (m : Message) (ns : List Message) → IsShared m → All IsShared ns → All IsShared (place m ns)
place-IsShared m [] h k = (h, tt)
place-IsShared m (n ∷ ns) h k = elim (Bool-cases (leb m.created_at n.created_at)) [
  | inl e ↦ rw e (h, k)
  | inr e ↦ rw e (k.0, place-IsShared m ns h k.1)
]

by_created-IsShared : (ms : List Message) → All IsShared ms → All IsShared (by_created ms)
unfolding by_created
by_created-IsShared [] h = tt
by_created-IsShared (m ∷ ms) h = place-IsShared m (by_created ms) h.0 (by_created-IsShared ms h.1)

abbrev is_public_on : ℕ → Message → Bool
is_public_on ticket m = m.ticket == ticket && is_public m.visibility

is_public_on-IsShared : (ticket : ℕ) (m : Message) → is_public_on ticket m ≡ true → IsShared m
is_public_on-IsShared ticket m h = visible m.visibility (both (m.ticket == ticket) _ h)
  where
    both : (a b : Bool) → (a && b) ≡ true → b ≡ true
    both true b e = e
    both false b e = cc

    visible : (v : Visibility) → is_public v ≡ true → v ≡ shared
    visible shared e = refl
    visible internal e = cc

keep-IsShared : (ticket : ℕ) (ms : List Message) → All IsShared (keep (is_public_on ticket) ms)
keep-IsShared ticket [] = tt
keep-IsShared ticket (m ∷ ms) = elim (Bool-cases (is_public_on ticket m)) [
  | inl e ↦ rw e (is_public_on-IsShared ticket m e, keep-IsShared ticket ms)
  | inr e ↦ rw e (keep-IsShared ticket ms)
]

pub history-IsForCustomer :
    (c : Conversation) (w : World) → All IsForCustomer (map html (history_for_visitor c w))
unfolding history_for_visitor public_messages_for
history-IsForCustomer c w =
    rendered (by_created (keep (is_public_on c.ticket) w.messages))
      (by_created-IsShared _ (keep-IsShared c.ticket w.messages))
  where
    rendered :
        (ms : List Message)
        → All IsShared ms
        → All IsForCustomer (map html (map (λ m. message_html m c.pk) ms))
    rendered [] h = tt
    rendered (m ∷ ms) h = (h.0, rendered ms h.1)
