-- ===== src/Portal/Model.antt =====
-- apps/portal/models.py, and the state that the portal's services share. What the framework and
-- the interpreter supply (hashes, random links, letter case, the password policy) is a record of
-- functions. The rows of the links are kept newest first, as the model orders them.
use azm_crm.Prelude.{
  ℕ, ◌+◌, String, Option, none, some, Bool, true, false, ◌&&◌, List, [], ◌∷◌, ◌++◌, if◌then◌else◌,
  ◌==◌, leb, ltb, is_some, first, update_where,
}
use azm_crm.Core.Text.{strip}
use text.Mathlib.Text.{◌==◌ as str_eq}

pub data Language : Type 0 where
  arabic english : Language

pub record Account : Type 0 where
  pub pk : ℕ
  pub email : String
  pub password : String
  pub email_confirmed_at : Option ℕ
  pub language : Language
  pub is_active : Bool
  pub failed_sign_ins : ℕ
  pub locked_until : Option ℕ

pub data Purpose : Type 0 where
  confirmation reset : Purpose

abbrev pub purpose_eq : Purpose → Purpose → Bool
purpose_eq confirmation confirmation = true
purpose_eq reset reset = true
purpose_eq _ _ = false

pub record Token : Type 0 where
  pub pk : ℕ
  pub account : ℕ
  pub purpose : Purpose
  pub value_hash : String
  pub expires_at : ℕ
  pub used_at : Option ℕ

-- `str.lower`, `secrets.token_urlsafe` and `make_password` (each with the random draw it makes),
-- `hashlib.sha256`, `salted_hmac`, `check_password` (whether the password is right, and the hash
-- that its setter is given, if it is called), `validate_password`, and the database's `iexact`.
pub record Library : Type 0 where
  pub lower : String → String
  pub token_urlsafe : ℕ → String
  pub sha256 : String → String
  pub salted_hmac : String → String
  pub make_password : ℕ → String → String
  pub check_password : String → String → Bool × Option String
  pub is_acceptable : String → String → Bool
  pub iexact : String → String → Bool

-- The PORTAL_ settings of config/settings/base.py.
pub record Settings : Type 0 where
  pub lockout_threshold : ℕ
  pub lockout_seconds : ℕ
  pub confirmation_link_seconds : ℕ
  pub reset_link_seconds : ℕ

-- The tasks that send mail: the address, then what the message carries.
pub data Mail : Type 0 where
  send_confirmation send_reset : String → String → Language → Mail
  send_already_registered : String → Language → Mail

-- The state at the moment `now`. `draws` counts the random draws that were made, and `staff` has the
-- addresses of the staff accounts, deactivated ones too.
pub record Site : Type 0 where
  pub library : Library
  pub settings : Settings
  pub now : ℕ
  pub draws : ℕ
  pub next_pk : ℕ
  pub accounts : List Account
  pub tokens : List Token
  pub staff : List String
  pub mail : List Mail

abbrev pub normalize : Library → String → String
normalize lib email = lib.lower (strip email)

abbrev pub is_locked : ℕ → Account → Bool
is_locked now a = elim a.locked_until [ none ↦ false | some t ↦ ltb now t ]

abbrev pub is_confirmed : Account → Bool
is_confirmed a = is_some a.email_confirmed_at

abbrev pub may_use_the_portal : Account → Bool
may_use_the_portal a = a.is_active && is_confirmed a

-- `CustomerAccount.objects.filter(email=...).first()`
abbrev pub find_account : String → List Account → Option Account
find_account email rows = first (λ a. str_eq a.email email) rows

-- An account by its number: `objects.filter(pk=...).first()`, and the account of a link.
abbrev pub account_of : ℕ → List Account → Option Account
account_of pk rows = first (λ a. a.pk == pk) rows

-- `save(update_fields=...)`: the change is made to the row with the object's number.
abbrev pub save_account : ℕ → (Account → Account) → Site → Site
save_account pk f s = record s { accounts = update_where (λ a. a.pk == pk) f s.accounts }

abbrev pub send : Mail → Site → Site
send m s = record s { mail = s.mail ++ m ∷ [] }

abbrev pub is_usable : ℕ → Token → Bool
is_usable now t = elim t.used_at [ none ↦ ltb now t.expires_at | some _ ↦ false ]

-- `record_failed_sign_in`: whether this failure is the one that locked, and the account.
abbrev count_failure : Settings → ℕ → Account → Bool × Account
count_failure s now a =
    if leb s.lockout_threshold (a.failed_sign_ins + 1)
    then (
      true,
      record a {
        failed_sign_ins = a.failed_sign_ins + 1;
        locked_until = some (now + s.lockout_seconds);
      },
    )
    else (false, record a { failed_sign_ins = a.failed_sign_ins + 1 })

unfoldable pub record_failed_sign_in : Settings → ℕ → Account → Bool × Account
record_failed_sign_in s now a = if is_locked now a then (false, a) else count_failure s now a

-- `clear_failed_sign_ins`: writing the same values again changes nothing.
unfoldable pub clear_failed_sign_ins : Account → Account
clear_failed_sign_ins a = record a { failed_sign_ins = 0; locked_until = none }
