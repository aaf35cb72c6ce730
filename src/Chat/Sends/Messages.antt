-- ===== src/Chat/Sends/Messages.antt =====
-- About the services of apps/chat/services/messaging.py: which frames each of them publishes.
use mathlib.Core.List.{append_assoc}
use azm_crm.Prelude.{
  [], ◌∷◌, ℕ, String, Option, none, some, Bool, true, false, refl, ◌≡◌, Bool-cases, inl, inr,
}
use azm_crm.Core.Text.{strip, is_empty}
use azm_crm.Tickets.Model.{Message, Direction, Visibility, shared, internal}
use azm_crm.Chat.Model.{
  Conversation, Notice, Html, message_html, whisper_html, system_html, public_group, staff_group,
  Party, chat_message, chat_system, chat_typing,
}
use azm_crm.Chat.Messaging.{
  hold_unless, hold_if_away, deliver, record_and_broadcast, broadcast_typing, broadcast_system,
}
use azm_crm.Chat.Presence.{has_socket}
use azm_crm.Chat.Sends.{
  Frame, Sends, Sends-then, Sends-pure, Sends-publish, Sends-publish_last, Grows-refl,
}

module _ (Q : Frame → Type 0) where
  Sends-hold_unless :
      (listening : Bool) (c : Conversation) (agent : ℕ) (m : Message) (h : Html)
      → Sends Q (hold_unless listening c agent m h)
  Sends-hold_unless true c agent m h = Sends-pure Q tt
  Sends-hold_unless false c agent m h = record { grows = λ w. Grows-refl Q w.sent }

  Sends-hold_if_away :
      (agent : Option ℕ) (c : Conversation) (m : Message) (h : Html)
      → Sends Q (hold_if_away agent c m h)
  unfolding hold_if_away
  Sends-hold_if_away none c m h = Sends-pure Q tt
  Sends-hold_if_away (some agent) c m h = record {
    grows = λ w.
        let asked = has_socket w.now agent w.redis in
        (Sends-hold_unless asked.0 c agent m h).grows (record w { redis = asked.1 });
  }

  -- What carries a message of one visibility may be published.
  abbrev pub Carries : Conversation → Visibility → Type 0
  Carries c internal = (m : Message) → Q (staff_group c.pk, chat_message (whisper_html m c.pk))
  Carries c shared =
      (m : Message)
      → m.visibility ≡ shared
      → Q (public_group c.pk, chat_message (message_html m c.pk))
        × Q (staff_group c.pk, chat_message (message_html m c.pk))

  Sends-deliver :
      (v : Visibility) (c : Conversation) (m : Message)
      → m.visibility ≡ v
      → Carries c v
      → Sends Q (deliver v c m)
  unfolding deliver
  Sends-deliver internal c m e h =
      Sends-publish Q _ _ _ (h m)
        (Sends-then Q (Sends-hold_if_away c.assigned_to c m _) (Sends-pure Q _))
  Sends-deliver shared c m e h = record {
    grows = λ w. (
      (public_group c.pk, chat_message (message_html m c.pk))
          ∷ (staff_group c.pk, chat_message (message_html m c.pk))
          ∷ [],
      append_assoc w.sent _ _,
      ((h m e).0, ((h m e).1, tt)),
    );
  }

  pub Sends-record_and_broadcast :
      (c : Conversation) (body : String) (author : Option ℕ) (d : Direction) (v : Visibility)
      → Carries c v
      → Sends Q (record_and_broadcast c body author d v)
  unfolding record_and_broadcast
  Sends-record_and_broadcast c body author d v h = record {
    grows = λ w. elim (Bool-cases (is_empty (strip body))) [
      | inl e ↦ rw e (Grows-refl Q w.sent)
      | inr e ↦ rw e ((Sends-deliver v c _ refl h).grows _)
    ];
  }

  pub Sends-broadcast_typing :
      (c : Conversation) (who : Party)
      → Q (public_group c.pk, chat_typing who)
      → Q (staff_group c.pk, chat_typing who)
      → Sends Q (broadcast_typing c who)
  unfolding broadcast_typing
  Sends-broadcast_typing c who h k = Sends-publish Q _ _ _ h (Sends-publish_last Q _ _ k)

  pub Sends-broadcast_staff :
      (c : Conversation) (text : Notice)
      → Q (staff_group c.pk, chat_system (system_html text))
      → Sends Q (broadcast_system c text true)
  unfolding broadcast_system
  Sends-broadcast_staff c text h = Sends-publish_last Q _ _ h

  pub Sends-broadcast_system :
      (c : Conversation) (text : Notice)
      → Q (staff_group c.pk, chat_system (system_html text))
      → Q (public_group c.pk, chat_system (system_html text))
      → Sends Q (broadcast_system c text false)
  unfolding broadcast_system
  Sends-broadcast_system c text h k = Sends-publish Q _ _ _ h (Sends-publish_last Q _ _ k)
