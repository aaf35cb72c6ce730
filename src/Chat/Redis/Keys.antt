-- ===== src/Chat/Redis/Keys.antt =====
-- The keys, fields and values that chat stores. A key is a constructor for each of the services'
-- `_key` functions, with the numbers that it formats; a value that is written by `str` of a
-- number and read back by `int` is that number.
use azm_crm.Prelude.{
  ℕ, Bool, true, false, ◌&&◌, ◌==◌, Option, none, some, List, [], ◌∷◌, if◌then◌else◌,
}
use azm_crm.Chat.Model.{Html}

-- liveness.VISITOR and liveness.AGENT.
pub data Party : Type 0 where
  visitor agent : Party

pub data Key : Type 0 where
  presence : ℕ → Key
  socket : ℕ → Key
  unread : ℕ → Key
  live : ℕ → Party → Key
  pending : ℕ → ℕ → Key
  queue : ℕ → ℕ → Key

pub data Field : Type 0 where
  capacity active is_open seen : Field
  id : ℕ → Field

pub data Value : Type 0 where
  num : ℕ → Value
  html : Html → Value

abbrev pub Hash : Type 0
Hash = List (Field × Value)

abbrev pub party_eq : Party → Party → Bool
party_eq visitor visitor = true
party_eq agent agent = true
party_eq _ _ = false

abbrev pub key_eq : Key → Key → Bool
key_eq (presence a) (presence b) = a == b
key_eq (socket a) (socket b) = a == b
key_eq (unread a) (unread b) = a == b
key_eq (live a p) (live b q) = a == b && party_eq p q
key_eq (pending a c) (pending b d) = a == b && c == d
key_eq (queue a c) (queue b d) = a == b && c == d
key_eq _ _ = false

abbrev pub field_eq : Field → Field → Bool
field_eq capacity capacity = true
field_eq active active = true
field_eq is_open is_open = true
field_eq seen seen = true
field_eq (id a) (id b) = a == b
field_eq _ _ = false

-- `d[f] = v` of a Python dict: in place, or at the end.
abbrev pub insert : Field → Value → Hash → Hash
insert f v [] = (f, v) ∷ []
insert f v ((g, w) ∷ h) =
    let rest = (g, w) ∷ insert f v h in if field_eq f g then (g, v) ∷ h else rest

-- `d.update(values)`
abbrev pub merge : Hash → Hash → Hash
merge h [] = h
merge h ((f, v) ∷ values) = merge (insert f v h) values

-- `d.get(f)`
abbrev pub get : Field → Hash → Option Value
get f [] = none
get f ((g, v) ∷ h) = let rest = get f h in if field_eq f g then some v else rest

-- `d.pop(f, None)`
abbrev pub pop : Field → Hash → Hash
pop f [] = []
pop f ((g, v) ∷ h) = let rest = pop f h in if field_eq f g then h else (g, v) ∷ rest

-- `int(...)` of a stored value.
abbrev pub to_int : Value → ℕ
to_int (num n) = n
to_int (html _) = 0

abbrev pub as_int : Option Value → ℕ
as_int none = 0
as_int (some v) = to_int v

-- `int(raw.get(f, 0))`
abbrev pub get_int : Field → Hash → ℕ
get_int f h = as_int (get f h)
