-- ===== src/Portal/Tokens.antt =====
-- apps/portal/services/tokens.py: links that are mailed once, expire, and are good for one use.
pub mod Lookup
pub mod Single
use azm_crm.Prelude.{
  ℕ, ◌+◌, String, Option, none, some, Bool, true, false, ◌&&◌, not, List, [], ◌∷◌, if◌then◌else◌,
  ◌==◌, is_some, first, update_where,
}
use azm_crm.Core.Text.{is_empty}
use text.Mathlib.Text.{◌==◌ as str_eq}
use azm_crm.Portal.Model.{
  Account, Purpose, confirmation, reset, purpose_eq, Token, Library, Settings, Site, is_usable,
}

unfoldable pub fingerprint : Library → String → String
fingerprint lib value = lib.sha256 value

-- LIFETIMES
abbrev pub lifetime : Settings → Purpose → ℕ
lifetime s confirmation = s.confirmation_link_seconds
lifetime s reset = s.reset_link_seconds

-- The value, and the state with the row.
unfoldable pub issue : Account → Purpose → Site → String × Site
unfolding fingerprint
issue a purpose s =
    let value = s.library.token_urlsafe s.draws in
    let token : Token = record {
      pk = s.next_pk;
      account = a.pk;
      purpose = purpose;
      value_hash = fingerprint s.library value;
      expires_at = s.now + lifetime s.settings purpose;
      used_at = none;
    } in
    (value, record s { draws = s.draws + 1; next_pk = s.next_pk + 1; tokens = token ∷ s.tokens })

-- `filter(value_hash=..., purpose=..., used_at__isnull=True)`
abbrev pub matches : String → Purpose → Token → Bool
matches hash purpose t =
    str_eq t.value_hash hash && (purpose_eq t.purpose purpose && not (is_some t.used_at))

abbrev pub find_token : String → Purpose → List Token → Option Token
find_token hash purpose rows = first (matches hash purpose) rows

abbrev pub usable : ℕ → Option Token → Option Token
usable now none = none
usable now (some t) = if is_usable now t then some t else none

unfoldable pub peek : String → Purpose → Site → Option Token
unfolding fingerprint
peek value purpose s =
    if is_empty value
    then none
    else usable s.now (find_token (fingerprint s.library value) purpose s.tokens)

-- `token.consume()`
abbrev pub stamp_used : ℕ → Token → Token
stamp_used now t = record t { used_at = some now }

unfoldable pub spend : Token → Site → Site
spend t s = record s { tokens = update_where (λ r. r.pk == t.pk) (stamp_used s.now) s.tokens }

abbrev pub consume_found : Option Token → Site → Option Token × Site
consume_found none s = (none, s)
consume_found (some t) s = (some (stamp_used s.now t), spend t s)

unfoldable pub consume : String → Purpose → Site → Option Token × Site
unfolding spend peek
consume value purpose s = consume_found (peek value purpose s) s

-- `filter(account=..., purpose=..., used_at__isnull=True).update(used_at=now)`
abbrev pub is_outstanding : ℕ → Purpose → Token → Bool
is_outstanding account purpose t =
    t.account == account && (purpose_eq t.purpose purpose && not (is_some t.used_at))

unfoldable pub invalidate_all : ℕ → Purpose → Site → Site
invalidate_all account purpose s = record s {
  tokens = update_where (is_outstanding account purpose) (stamp_used s.now) s.tokens;
}
