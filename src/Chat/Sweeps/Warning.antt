-- ===== src/Chat/Sweeps/Warning.antt =====
-- About the idle sweep of apps/chat/tasks.py: the warning and its mark.
use azm_crm.Prelude.{
  ℕ, some, true, false, List, [], ◌∷◌, leb, is_some, ◌==◌, update_where, ◌≡◌, refl, arith,
  Bool-cases, inl, inr, ap,
}
use azm_crm.Chat.Model.{Conversation}
use azm_crm.Chat.Messaging.{broadcast_system}
use azm_crm.Chat.World.{World, ok, find_conversation}
use azm_crm.Chat.Sweeps.{sweep_idle, idle_for, warned_at, warn_idle}

some_inj : {x y : Conversation} → some x ≡ some y → x ≡ y
some_inj h = ground arith

find_warned :
    (pk now : ℕ) (rows : List Conversation) (c : Conversation)
    → find_conversation pk rows ≡ some c
    → find_conversation pk (update_where (λ r. r.pk == pk) (warned_at now) rows)
      ≡ some (warned_at now c)
find_warned pk now [] c e = cc
find_warned pk now (x ∷ rows) c e = elim (Bool-cases (x.pk == pk)) [
  | inr h ↦ rw (h, h) (find_warned pk now rows c (rw h at e))
  | inl h ↦ elim (Bool-cases (is_some x.deleted_at)) [
    | inl gone ↦ rw (h, h, gone) (find_warned pk now rows c (rw (h, gone) at e))
    | inr here ↦ rw (h, h, here) (ap some (ap (warned_at now) (some_inj (rw (h, here) at e))))
  ]
]

module _ (c : Conversation) (now limit warn_after : ℕ) (w : World)
    (soon : leb limit (idle_for now c) ≡ false) where
  passes_over :
      is_some c.idle_warned_at ≡ true → sweep_idle now limit warn_after c w ≡ (ok (0, 0), w)
  unfolding sweep_idle
  passes_over e = elim (Bool-cases (leb warn_after (idle_for now c))) [
    | inl l ↦ rw (soon, l, e) refl
    | inr l ↦ rw (soon, l) refl
  ]

  warns :
      is_some c.idle_warned_at ≡ false
      → leb warn_after (idle_for now c) ≡ true
      → sweep_idle now limit warn_after c w ≡ warn_idle now c w
  unfolding sweep_idle
  warns e l = rw (soon, l, e) refl

row_after_warning :
    (c : Conversation) (now : ℕ) (w : World)
    → find_conversation c.pk w.conversations ≡ some c
    → find_conversation c.pk (warn_idle now c w).1.conversations ≡ some (warned_at now c)
unfolding broadcast_system
row_after_warning c now w fresh = find_warned c.pk now w.conversations c fresh

-- Let the sweep take up a conversation as its row is, idle long enough for the warning and not
-- for the close. Whatever the row's mark was, the row that the sweep leaves is passed over by a
-- later sweep, with nothing changed and nobody warned, for as long as the conversation has not
-- been idle for the limit.
pub warned_once :
    (c : Conversation) (now later limit warn_after : ℕ) (w : World)
    → find_conversation c.pk w.conversations ≡ some c
    → leb warn_after (idle_for now c) ≡ true
    → leb limit (idle_for now c) ≡ false
    → leb limit (idle_for later c) ≡ false
    → let w' = (sweep_idle now limit warn_after c w).1 in
      (c' : Conversation) × (find_conversation c.pk w'.conversations ≡ some c')
      × (sweep_idle later limit warn_after c' w' ≡ (ok (0, 0), w'))
warned_once c now later limit warn_after w fresh late soon still =
    elim (Bool-cases (is_some c.idle_warned_at)) [
      | inl e ↦
          rw (passes_over c now limit warn_after w soon e)
            (c, fresh, passes_over c later limit warn_after w still e)
      | inr e ↦ rw (warns c now limit warn_after w soon e late) (
        warned_at now c,
        row_after_warning c now w fresh,
        passes_over (warned_at now c) later limit warn_after (warn_idle now c w).1 still refl,
      )
    ]
