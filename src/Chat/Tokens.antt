-- ===== src/Chat/Tokens.antt =====
-- apps/chat/services/tokens.py: the visitor's credential. Signing, SHA-256 and the comparison of
-- digests are parameters.
use azm_crm.Prelude.{ℕ, String, Option, none, some, Bool, ◌&&◌, not, List, [], ◌∷◌, if◌then◌else◌}
use azm_crm.Core.Text.{is_empty}
use text.Mathlib.Text.{◌==◌ as str_eq}

-- The payload of a token: a dictionary of numbers.
abbrev pub Claims : Type 0
Claims = List (String × ℕ)

-- `signing.dumps` and `signing.loads` with the salt of this module, at a moment and with an
-- oldest age (`none`: BadSignature, which an expired signature is too), `hashlib.sha256`, and
-- `hmac.compare_digest`.
pub record Signer : Type 0 where
  pub dumps : ℕ → Claims → String
  pub loads : ℕ → ℕ → String → Option Claims
  pub sha256 : String → String
  pub compare_digest : String → String → Bool

unfoldable pub issue : Signer → ℕ → ℕ → String
issue k now conversation = k.dumps now (("conversation", conversation) ∷ [])

-- `payload.get("conversation")`
unfoldable pub named : Claims → Option ℕ
named [] = none
named ((key, n) ∷ claims) =
    let rest = named claims in if str_eq key "conversation" then some n else rest

abbrev pub named_in : Option Claims → Option ℕ
named_in none = none
named_in (some claims) = named claims

unfoldable pub read : Signer → ℕ → ℕ → String → Option ℕ
unfolding named
read k max_age now token = if is_empty token then none else named_in (k.loads max_age now token)

abbrev pub fingerprint : Signer → String → String
fingerprint k token = k.sha256 token

unfoldable pub matches : Signer → String → String → Bool
matches k token stored = not (is_empty token) && k.compare_digest (fingerprint k token) stored
