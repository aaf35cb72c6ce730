-- ===== src/Portal/Registration.antt =====
-- apps/portal/services/registration.py, and `create_account` of models.py. A call returns nothing
-- to its caller, or raises.
pub mod Silence
use azm_crm.Prelude.{
  ℕ, ◌+◌, String, Option, none, some, Bool, true, false, List, [], ◌∷◌, ◌++◌, if◌then◌else◌, any,
  is_some, ◌==◌, not, ◌||◌,
}
use azm_crm.Core.Text.{is_empty}
use azm_crm.Portal.Model.{
  Language, arabic, Account, Purpose, confirmation, Token, Site, Mail, send_confirmation,
  send_already_registered, normalize, find_account, account_of, save_account, send, is_confirmed,
}
use azm_crm.Portal.Tokens.{issue, consume}

pub data Outcome {ℓ} (A : Type ℓ) : Type ℓ where
  ok : A → Outcome A
  no_address address_already_in_use : Outcome A

abbrev pub is_staff : String → Site → Bool
is_staff email s = any (λ staff. s.library.iexact staff email) s.staff

abbrev fresh_account : String → String → Language → Site → Account
fresh_account email password language s = record {
  pk = s.next_pk;
  email = normalize s.library email;
  password = s.library.make_password s.draws password;
  email_confirmed_at = none;
  language = language;
  is_active = true;
  failed_sign_ins = 0;
  locked_until = none;
}

abbrev insert_account : Account → Site → Outcome Account × Site
insert_account a s = (
  ok a,
  record s { draws = s.draws + 1; next_pk = s.next_pk + 1; accounts = s.accounts ++ a ∷ [] },
)

abbrev create_normalized : String → String → Language → Site → Outcome Account × Site
create_normalized email password language s =
    if is_empty email
    then (no_address, s)
    else if is_staff email s
    then (address_already_in_use, s)
    else insert_account (fresh_account email password language s) s

-- `CustomerAccountManager.create_account`; `save` normalizes the address once more.
unfoldable pub create_account : String → String → Language → Site → Outcome Account × Site
create_account email password language s =
    create_normalized (normalize s.library email) password language s

-- `_issue_confirmation`
unfoldable pub issue_confirmation : Account → Site → Site
unfolding issue
issue_confirmation a s =
    let issued = issue a confirmation s in
    send (send_confirmation a.email issued.0 a.language) issued.1

abbrev confirm_created : Outcome Account × Site → Outcome (Unit {0}) × Site
confirm_created (ok a, s) = (ok tt, issue_confirmation a s)
confirm_created (no_address, s) = (no_address, s)
confirm_created (address_already_in_use, s) = (address_already_in_use, s)

-- `_spend_the_same_effort`: a hash that is thrown away, with its draw.
unfoldable pub spend_the_same_effort : Site → Site
spend_the_same_effort s = record s { draws = s.draws + 1 }

abbrev answer_known : Account → Site → Site
answer_known a s =
    if is_confirmed a
    then send (send_already_registered a.email a.language) s
    else issue_confirmation a s

abbrev register_as : String → String → Language → Option Account → Site → Outcome (Unit {0}) × Site
register_as email password language none s =
    if is_staff email s
    then (ok tt, spend_the_same_effort s)
    else confirm_created (create_account email password language s)
register_as email password language (some a) s = (ok tt, answer_known a (spend_the_same_effort s))

unfoldable pub register : String → String → Language → Site → Outcome (Unit {0}) × Site
unfolding create_account issue_confirmation spend_the_same_effort
register email password language s =
    let address = normalize s.library email in
    register_as address password language (find_account address s.accounts) s

abbrev prove : ℕ → Account → Account
prove now a = record a { email_confirmed_at = some now }

abbrev confirm_account : Option Account → Site → Option Account × Site
confirm_account none s = (none, s)
confirm_account (some a) s =
    if not a.is_active
    then (none, s)
    else if is_confirmed a
    then (some a, s)
    else (some (prove s.now a), save_account a.pk (prove s.now) s)

abbrev confirm_with : Option Token × Site → Option Account × Site
confirm_with (none, s) = (none, s)
confirm_with (some t, s) = confirm_account (account_of t.account s.accounts) s

unfoldable pub confirm : String → Site → Option Account × Site
unfolding consume
confirm value s = confirm_with (consume value confirmation s)

abbrev resend_to : Option Account → Site → Site
resend_to none s = s
resend_to (some a) s = if is_confirmed a || not a.is_active then s else issue_confirmation a s

unfoldable pub resend_confirmation : String → Site → Site
unfolding issue_confirmation
resend_confirmation email s = resend_to (find_account (normalize s.library email) s.accounts) s
