-- ===== src/Portal/Auth.antt =====
-- apps/portal/auth.py: signing in to the portal, and the session that it opens.
pub mod Lockout
use azm_crm.Prelude.{
  ℕ, String, Option, none, some, Bool, true, false, List, [], ◌∷◌, if◌then◌else◌, not, ◌||◌,
}
use text.Mathlib.Text.{◌==◌ as str_eq}
use azm_crm.Portal.Model.{
  Account, Library, Site, normalize, find_account, account_of, save_account, is_locked,
  is_confirmed, may_use_the_portal, record_failed_sign_in, clear_failed_sign_ins,
}

-- The account, the exception `Unconfirmed`, or `None`.
pub data SignIn : Type 0 where
  signed_in unconfirmed : Account → SignIn
  refused : SignIn

-- The outcome, and the account that this failure locked: the caller's out-parameter.
abbrev pub Answer : Type 0
Answer = SignIn × Option Account

abbrev pub upgrade : Option String → Account → Account
upgrade none a = a
upgrade (some hash) a = record a { password = hash }

abbrev pub fail : Bool × Account → Site → Answer × Site
fail (true, a) s = ((refused, some a), save_account a.pk (λ _. a) s)
fail (false, a) s = ((refused, none), save_account a.pk (λ _. a) s)

abbrev pub admit : Account → SignIn
admit a =
    if not a.is_active then refused else if not (is_confirmed a) then unconfirmed a else signed_in a

abbrev pub succeed : Account → Site → Answer × Site
succeed a s = ((admit a, none), save_account a.pk (λ _. a) s)

abbrev pub check : Account → Bool × Option String → Site → Answer × Site
check a (false, _) s = fail (record_failed_sign_in s.settings s.now a) s
check a (true, new_hash) s = succeed (clear_failed_sign_ins (upgrade new_hash a)) s

abbrev pub try_account : String → Option Account → Site → Answer × Site
try_account password none s = ((refused, none), s)
try_account password (some a) s =
    if is_locked s.now a
    then ((refused, none), s)
    else check a (s.library.check_password password a.password) s

unfoldable pub authenticate_customer : String → String → Site → Answer × Site
unfolding record_failed_sign_in clear_failed_sign_ins
authenticate_customer email password s =
    try_account password (find_account (normalize s.library email) s.accounts) s

-- The customer's part of a session.
pub record Session : Type 0 where
  pub customer : Option ℕ
  pub fingerprint : String

unfoldable pub session_fingerprint : Library → Account → String
session_fingerprint lib a = lib.salted_hmac a.password

unfoldable pub sign_in_customer : Library → Account → Session
unfolding session_fingerprint
sign_in_customer lib a = record { customer = some a.pk; fingerprint = session_fingerprint lib a }

unfoldable pub sign_out_customer : Session → Session
sign_out_customer session = record { customer = none; fingerprint = "" }

abbrev served : String → Library → Option Account → Option Account
served stamped lib none = none
served stamped lib (some a) =
    if not (may_use_the_portal a)
    then none
    else if str_eq stamped (session_fingerprint lib a)
    then some a
    else none

abbrev read_customer : Session → Option ℕ → Site → Option Account
read_customer session none s = none
read_customer session (some pk) s = served session.fingerprint s.library (account_of pk s.accounts)

unfoldable pub customer_from_session : Session → Site → Option Account
unfolding session_fingerprint
customer_from_session session s = read_customer session session.customer s
