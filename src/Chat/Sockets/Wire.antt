-- ===== src/Chat/Sockets/Wire.antt =====
-- What arrives on a socket (apps/chat/consumers/base.py, `ChatConsumer.parse`): a text that is
-- read as JSON. `json.loads` and `int` are parameters.
use azm_crm.Prelude.{ℕ, String, Option, none, some, Bool, true, false, not, if◌then◌else◌}
use azm_crm.Core.Text.{is_empty}
use text.Mathlib.Text.{◌==◌ as str_eq}
use azm_crm.Chat.World.{M, pure, raise, bad_value}

-- A number keeps the text that it was written with. The keys of a dictionary are distinct.
mutual
  pub data Json : Type 0 where
    null : Json
    flag : Bool → Json
    number : String → Json
    str : String → Json
    items : Items → Json
    fields : Fields → Json

  pub data Items : Type 0 where
    nil : Items
    cons : Json → Items → Items

  pub data Fields : Type 0 where
    end : Fields
    field : String → Json → Fields → Fields

-- What `int(...)` of a value gives, where a row's number is wanted: no number of a row is negative.
pub data Wanted : Type 0 where
  unreadable negative : Wanted
  row : ℕ → Wanted

-- `json.loads` (`none`: it raised), `int`, and whether a number is zero.
pub record Wire : Type 0 where
  pub loads : String → Option Json
  pub to_int : Json → Wanted
  pub is_zero : String → Bool

abbrev dictionary : Option Json → Fields
dictionary (some (fields fs)) = fs
dictionary _ = end

abbrev text_or : String → Option String → String
text_or d none = d
text_or d (some s) = if is_empty s then d else s

-- `parse`: what is no dictionary is an empty one.
unfoldable pub parse : Wire → Option String → Fields
parse wire data_text = dictionary (wire.loads (text_or "{}" data_text))

-- `payload.get(key, d)`
unfoldable pub get : String → Json → Fields → Json
get key d end = d
get key d (field k v fs) = let rest = get key d fs in if str_eq k key then v else rest

abbrev pub is_text : String → Json → Bool
is_text s (str t) = str_eq t s
is_text s _ = false

-- `bool(value)`
unfoldable pub truthy : Wire → Json → Bool
truthy wire null = false
truthy wire (flag b) = b
truthy wire (number n) = not (wire.is_zero n)
truthy wire (str s) = not (is_empty s)
truthy wire (items nil) = false
truthy wire (items (cons v vs)) = true
truthy wire (fields end) = false
truthy wire (fields (field k v fs)) = true

abbrev pub empty_or_raise : Bool → M String
empty_or_raise true = raise bad_value
empty_or_raise false = pure ""

-- `body or ""`, of which `strip` is asked next: a value that is no text has none.
unfoldable pub body_text : Wire → Json → M String
unfolding truthy
body_text wire (str s) = pure s
body_text wire v = empty_or_raise (truthy wire v)

-- `payload.get("type")` is hashed by `in`, which raises for a list and a dictionary.
abbrev pub is_hashable : Json → Bool
is_hashable (items _) = false
is_hashable (fields _) = false
is_hashable _ = true
