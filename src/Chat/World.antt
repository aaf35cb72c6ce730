-- ===== src/Chat/World.antt =====
-- The state that the chat services share: the store, the rows of the database, and the frames
-- that were published, oldest first. A call runs at one moment, `now`. A service is an action
-- on that state, which may raise.
use azm_crm.Prelude.{
  ℕ, Option, ◌&&◌, not, List, [], ◌∷◌, ◌++◌, ◌==◌, first, update_where, is_some, ◌≡◌,
}
use azm_crm.Core.Sequence.{Sequence}
use azm_crm.Tickets.Model.{Ticket, Message}
use azm_crm.Chat.Settings.{Settings}
use azm_crm.Chat.Model.{Conversation, User, Group, Payload, Contact, Observation}
use azm_crm.Chat.Redis.{Redis}

pub record World : Type 0 where
  pub settings : Settings
  pub now : ℕ
  pub redis : Redis
  pub users : List User
  pub contacts : List Contact
  pub conversations : List Conversation
  pub tickets : List Ticket
  pub messages : List Message
  pub observations : List Observation
  pub sequences : List Sequence
  pub year : ℕ
  pub next_pk : ℕ
  pub sent : List (Group × Payload)

-- `bad_value` stands for the TypeError, ValueError or AttributeError of a value of another kind.
pub data Error : Type 0 where
  does_not_exist out_of_fuel bad_value : Error

pub data Result {ℓ} (A : Type ℓ) : Type ℓ where
  ok : A → Result A
  raised : Error → Result A

abbrev pub M : Type 0 → Type 0
M A = World → Result A × World

abbrev pub next : {A B : Type 0} → Result A → (A → M B) → M B
next (ok a) f w = f a w
next (raised e) f w = (raised e, w)

infixl 5 ◌>>=◌ ◌>>◌
abbrev pub ◌>>=◌ : {A B : Type 0} → M A → (A → M B) → M B
◌>>=◌ m f w = let (r, w') = m w in next r f w'

abbrev pub ◌>>◌ : {A B : Type 0} → M A → M B → M B
m >> k = m >>= λ _. k

abbrev pub pure : {A : Type 0} → A → M A
pure a w = (ok a, w)

abbrev pub raise : {A : Type 0} → Error → M A
raise e w = (raised e, w)

abbrev pub gets : {A : Type 0} → (World → A) → M A
gets f w = (ok (f w), w)

-- An action on the store, at the present moment.
abbrev pub on_redis : {A : Type 0} → (Settings → ℕ → Redis → A × Redis) → M A
on_redis f w = let (a, r) = f w.settings w.now w.redis in (ok a, record w { redis = r })

-- `group_send`
abbrev pub publish : Group → Payload → M (Unit {0})
publish g p w = (ok tt, record w { sent = w.sent ++ (g, p) ∷ [] })

-- `Conversation.objects` hides soft-deleted rows.
abbrev pub find_conversation : ℕ → List Conversation → Option Conversation
find_conversation pk rows = first (λ c. (c.pk == pk) && not (is_some c.deleted_at)) rows

-- `save(update_fields=...)`: the change is made to the row with the object's number.
abbrev pub save_conversation : ℕ → (Conversation → Conversation) → M (Unit {0})
save_conversation pk f w =
    (ok tt, record w { conversations = update_where (λ c. c.pk == pk) f w.conversations })

abbrev pub find_ticket : ℕ → List Ticket → Option Ticket
find_ticket pk rows = first (λ t. t.pk == pk) rows

abbrev pub save_ticket : ℕ → (Ticket → Ticket) → M (Unit {0})
save_ticket pk f w = (ok tt, record w { tickets = update_where (λ t. t.pk == pk) f w.tickets })

next-eq-ok :
    {A B : Type 0} (r : Result A) (k : M B) (w : World) {b : B} {w' : World}
    → next r (λ _. k) w ≡ (ok b, w')
    → (w'' : World) × (k w'' ≡ (ok b, w'))
next-eq-ok (ok a) k w e = (w, e)
next-eq-ok (raised x) k w e = cc

-- A sequence that returns has run its last part, from some state.
pub >>-eq-ok :
    {A B : Type 0} (m : M A) (k : M B) (w : World) {b : B} {w' : World}
    → (m >> k) w ≡ (ok b, w')
    → (w'' : World) × (k w'' ≡ (ok b, w'))
>>-eq-ok m k w e = next-eq-ok (m w).0 k (m w).1 e
