-- ===== src/Core/Logging.antt =====
-- apps/core/logging.py: the filter that every record of the log goes through. What `re.IGNORECASE`
-- takes for the same letter is a parameter.
pub mod Redaction
mod Tests
use Prim.Native.Char.{Char, code}
use Prim.Native.String.{String}
use Prim.Native.String.{◌++◌ as append}
use azm_crm.Prelude.{
  ℕ, zero, suc, ◌-◌, Option, none, some, Bool, true, false, ◌||◌, List, [], ◌∷◌, map, is_some, ◌==◌,
  if◌then◌else◌,
}

abbrev pub redacted : String
redacted = "[REDACTED]"

-- How many characters a pattern matched.
abbrev pub Matched : Type 0
Matched = Option ℕ

abbrev pub one_more : Matched → Matched
one_more none = none
one_more (some n) = some (suc n)

abbrev pub or_match : Matched → Matched → Matched
or_match (some n) later = some n
or_match none later = later

abbrev pub is_separator : Char → Bool
is_separator c = code c == 95 || code c == 45

-- A value that is a text, or another object by its number.
pub data Logged : Type 0 where
  string : String → Logged
  other : ℕ → Logged

pub data Args : Type 0 where
  mapping : List (Logged × Logged) → Args
  positional : List Logged → Args

pub record LogRecord : Type 0 where
  pub msg : Logged
  pub args : Args

module _ (fold : Char → Char) where
  -- A word, and then the rest of the pattern.
  unfoldable pub match_word : String → (String → Matched) → String → Matched
  match_word String.[] k s = k s
  match_word (String.◌∷◌ p ps) k String.[] = none
  match_word (String.◌∷◌ p ps) k (String.◌∷◌ c s) =
      let rest = one_more (match_word ps k s) in if code (fold c) == code p then rest else none

  abbrev pub ends : String → Matched
  ends s = some 0

  abbrev pub word : String → String → Matched
  word w s = match_word w ends s

  -- `[_-]?` before a word.
  abbrev pub separated_word : String → String → Matched
  separated_word w String.[] = word w String.[]
  separated_word w (String.◌∷◌ c s) =
      if is_separator c then one_more (word w s) else word w (String.◌∷◌ c s)

  -- `SENSITIVE_KEYS`, at one place.
  unfoldable pub match_key : String → Matched
  unfolding match_word
  match_key s = or_match (word "password" s) (
      or_match (word "secret" s) (
        or_match (word "token" s) (
          or_match (match_word "api" (separated_word "key") s)
            (or_match (match_word "credit" (separated_word "card") s) (word "ssn" s)))))

  -- `SENSITIVE_KEYS.search`
  unfoldable pub is_sensitive : String → Bool
  unfolding match_key
  is_sensitive String.[] = false
  is_sensitive (String.◌∷◌ c s) = is_some (match_key (String.◌∷◌ c s)) || is_sensitive s

  -- `SENSITIVE_KEYS.sub`, with the number of characters that a match still takes.
  abbrev pub to_skip : ℕ → Matched → ℕ
  to_skip (suc n) m = n
  to_skip zero none = 0
  to_skip zero (some n) = n - 1

  abbrev pub put : ℕ → Matched → Char → String → String
  put (suc n) m c rest = rest
  put zero none c rest = String.◌∷◌ c rest
  put zero (some n) c rest = append redacted rest

  unfoldable pub sub_from : ℕ → String → String
  unfolding match_key
  sub_from skip String.[] = String.[]
  sub_from skip (String.◌∷◌ c s) =
      let m = match_key (String.◌∷◌ c s) in put skip m c (sub_from (to_skip skip m) s)

  -- `_redact_line`
  unfoldable pub redact_line : String → String
  unfolding sub_from
  redact_line message = sub_from 0 message

  abbrev pub redact_text : String → String
  redact_text message = if is_sensitive message then redact_line message else message

  abbrev pub redact_message : Logged → Logged
  redact_message (string message) = string (redact_text message)
  redact_message (other n) = other n

  abbrev pub is_secret : Logged → Bool
  is_secret (string key) = is_sensitive key
  is_secret (other n) = false

  abbrev pub redact_entry : Logged × Logged → Logged × Logged
  redact_entry (key, value) = (key, if is_secret key then string redacted else value)

  abbrev pub redact_value : Logged → Logged
  redact_value a = if is_secret a then string redacted else a

  abbrev pub redact_args : Args → Args
  redact_args (mapping entries) = mapping (map redact_entry entries)
  redact_args (positional values) = positional (map redact_value values)

  -- `SensitiveDataFilter.filter`, which lets every record through.
  unfoldable pub filter : LogRecord → LogRecord
  unfolding is_sensitive redact_line
  filter r = record { msg = redact_message r.msg; args = redact_args r.args }
