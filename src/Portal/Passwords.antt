-- ===== src/Portal/Passwords.antt =====
-- apps/portal/services/passwords.py: resetting a forgotten password.
pub mod Resets
use azm_crm.Prelude.{
  ℕ, ◌+◌, String, Option, none, some, Bool, true, false, List, [], ◌∷◌, if◌then◌else◌, not,
}
use azm_crm.Portal.Model.{
  Account, Purpose, reset, Token, Site, send_reset, normalize, find_account, account_of,
  save_account, send, may_use_the_portal, clear_failed_sign_ins,
}
use azm_crm.Portal.Tokens.{issue, peek, spend, invalidate_all}

-- How `complete_reset` comes out: the account, the policy's refusal, or `None` for a bad link.
pub data Reset : Type 0 where
  done : Account → Reset
  rejected no_good : Reset

abbrev mail_reset : Account → Site → Site
mail_reset a s =
    let issued = issue a reset s in send (send_reset a.email issued.0 a.language) issued.1

abbrev reset_for : Option Account → Site → Site
reset_for none s = s
reset_for (some a) s = if may_use_the_portal a then mail_reset a s else s

unfoldable pub start_reset : String → Site → Site
unfolding issue
start_reset email s = reset_for (find_account (normalize s.library email) s.accounts) s

abbrev pub with_password : String → Account → Account
with_password hash a = record a { password = hash }

abbrev pub change_password : String → Token → Account → Site → Reset × Site
change_password new_password t a s =
    let hash = s.library.make_password s.draws new_password in
    let spent = spend t s in
    let saved : Site =
      save_account a.pk (with_password hash) (record spent { draws = s.draws + 1 }) in
    let burnt = invalidate_all a.pk reset saved in
    (
      done (clear_failed_sign_ins (with_password hash a)),
      save_account a.pk clear_failed_sign_ins burnt,
    )

abbrev pub reset_account : String → Token → Option Account → Site → Reset × Site
reset_account new_password t none s = (no_good, s)
reset_account new_password t (some a) s =
    if not (may_use_the_portal a)
    then (no_good, s)
    else if not (s.library.is_acceptable new_password a.email)
    then (rejected, s)
    else change_password new_password t a s

abbrev pub reset_with : String → Option Token → Site → Reset × Site
reset_with new_password none s = (no_good, s)
reset_with new_password (some t) s =
    reset_account new_password t (account_of t.account s.accounts) s

unfoldable pub complete_reset : String → String → Site → Reset × Site
unfolding peek spend invalidate_all clear_failed_sign_ins
complete_reset value new_password s = reset_with new_password (peek value reset s) s
