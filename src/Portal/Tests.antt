-- ===== src/Portal/Tests.antt =====
-- One customer's account, and what happens to it.
use azm_crm.Prelude.{
  ltb, List, ℕ, ◌+◌, String, none, some, true, false, not, [], ◌∷◌, ◌≡◌, ◌≢◌, refl,
}
use azm_crm.Core.Text.{strip, strip_left, strip_right, is_space, is_empty}
use text.Mathlib.Text.{◌==◌ as str_eq}
use text.Mathlib.TextEquality.{eq_iff}
use azm_crm.Tickets.Model.{Ticket, normal, closed, opened, portal}
use azm_crm.Tickets.Lifecycle.{reopen_for_customer_reply, apply_transition, save}
use azm_crm.Portal.Requests.{
  Desk, email, reply_to, request_for, requests_for, newest_first, contact_ids_for,
}
use azm_crm.Portal.Requests.Own.{IsReply, reply_to-IsReply}
use azm_crm.Portal.Model.{
  Account, english, Purpose, confirmation, reset, Token, Library, Settings, Site, normalize,
  is_locked, find_account, record_failed_sign_in, clear_failed_sign_ins,
}
use azm_crm.Portal.Tokens.{fingerprint, peek, consume, spend, invalidate_all}
use azm_crm.Portal.Tokens.Single.{consume_once}
use azm_crm.Portal.Registration.{register}
use azm_crm.Portal.Registration.Silence.{IsQuiet, register-IsQuiet}
use azm_crm.Portal.Passwords.{complete_reset, done}
use azm_crm.Portal.Passwords.Resets.{reset_burns_links, reset_ends_sessions}
use azm_crm.Portal.Auth.{
  sign_in_customer, customer_from_session, session_fingerprint, authenticate_customer,
}
use azm_crm.Portal.Auth.Lockout.{
  fail_at, locks_at_threshold, Verdict, authenticate_customer-Verdict,
}

-- Hashes that show what they hash, so that a run can be read.
abbrev library : Library
library = record {
  lower = λ s. s;
  token_urlsafe = λ n. "link";
  sha256 = λ s. s;
  salted_hmac = λ s. s;
  make_password = λ n s. s;
  check_password = λ raw hash. (str_eq raw hash, none);
  is_acceptable = λ password email. not (is_empty password);
  iexact = str_eq;
}

-- The values of config/settings/base.py.
abbrev settings : Settings
settings = record {
  lockout_threshold = 10;
  lockout_seconds = 900;
  confirmation_link_seconds = 259200;
  reset_link_seconds = 3600;
}

abbrev noura : Account
noura = record {
  pk = 1;
  email = "noura@example.com";
  password = "old";
  email_confirmed_at = some 50;
  language = english;
  is_active = true;
  failed_sign_ins = 0;
  locked_until = none;
}

abbrev link : ℕ → Purpose → String → Token
link n purpose hash = record {
  pk = n;
  account = 1;
  purpose = purpose;
  value_hash = hash;
  expires_at = 1000;
  used_at = none;
}

abbrev site : Site
site = record {
  library = library;
  settings = settings;
  now = 100;
  draws = 0;
  next_pk = 5;
  accounts = noura ∷ [];
  tokens = link 3 reset "second" ∷ link 2 reset "first" ∷ [];
  staff = "agent@example.com" ∷ [];
  mail = [];
}

abbrev spent_first : Token
spent_first = record (link 2 reset "first") { used_at = some 100 }

first_is_good : (consume "first" reset site).0 ≡ some spent_first
unfolding consume peek fingerprint spend
first_is_good = refl

consume_once_example :
    (consume "first" confirmation (record (consume "first" reset site).1 { now = 200 })).0 ≡ none
consume_once_example =
    consume_once "first" reset confirmation 200 site spent_first
      (((λ e. cc ((eq_iff "second" "first").1 e)), tt), (tt, tt)) first_is_good

abbrev changed : Account
changed = record noura { password = "new" }

abbrev after : Site
after = (complete_reset "first" "new" site).1

reset_done : complete_reset "first" "new" site ≡ (done changed, after)
unfolding complete_reset peek fingerprint spend invalidate_all clear_failed_sign_ins
reset_done = refl

reset_ends_sessions_example : customer_from_session (sign_in_customer library noura) after ≡ none
reset_ends_sessions_example =
    reset_ends_sessions "first" "new" site after changed (sign_in_customer library noura) reset_done
      (unfold sign_in_customer in refl)
      (unfold sign_in_customer session_fingerprint in λ e. cc ((eq_iff "old" "new").1 e))

-- A link for another account outlives the reset.
abbrev shared_site : Site
shared_site = record site { tokens = record (link 4 reset "other") { account = 9 } ∷ site.tokens }

abbrev shared_after : Site
shared_after = (complete_reset "first" "new" shared_site).1

shared_done : complete_reset "first" "new" shared_site ≡ (done changed, shared_after)
unfolding complete_reset peek fingerprint spend invalidate_all clear_failed_sign_ins
shared_done = refl

other_found :
    peek "other" reset (record shared_after { now = 200 })
    ≡ some (record (link 4 reset "other") { account = 9 })
unfolding complete_reset peek fingerprint spend invalidate_all clear_failed_sign_ins
other_found = refl

reset_burns_links_example : (record (link 4 reset "other") { account = 9 }).account ≢ changed.pk
reset_burns_links_example =
    reset_burns_links "first" "new" "other" 200 shared_site shared_after changed
      (record (link 4 reset "other") { account = 9 }) shared_done other_found

-- Nine failures, a minute apart, the latest at the head.
abbrev nine_failures : List ℕ
nine_failures = 580 ∷ 520 ∷ 460 ∷ 400 ∷ 340 ∷ 280 ∷ 220 ∷ 160 ∷ 100 ∷ []

locks_at_threshold_example :
    ((later : ℕ) → is_locked later (fail_at nine_failures settings noura) ≡ false)
    × ((record_failed_sign_in settings 640 (fail_at nine_failures settings noura)).0 ≡ true)
    × ((later : ℕ)
        → is_locked later (fail_at (640 ∷ nine_failures) settings noura) ≡ ltb later (640 + 900))
locks_at_threshold_example = locks_at_threshold nine_failures 640 settings noura refl refl refl

authenticate_customer-Verdict_example :
    Verdict site
      (find_account (normalize library "noura@example.com") site.accounts)
      "wrong"
      (authenticate_customer "noura@example.com" "wrong" site)
authenticate_customer-Verdict_example =
    authenticate_customer-Verdict "noura@example.com" "wrong" site

register-IsQuiet_example :
    IsQuiet
      (normalize library "agent@example.com")
      site
      (register "agent@example.com" "pw" english site)
register-IsQuiet_example =
    register-IsQuiet "agent@example.com" "pw" english site
      (unfold strip strip_left strip_right is_space in refl)
      (unfold strip strip_left strip_right is_space in refl)

abbrev asked : Ticket
asked = record {
  pk = 8;
  reference = "AZM-2026-000008";
  organization = none;
  contact = 7;
  subject = "Printer";
  description = "";
  category = 2;
  priority = normal;
  status = closed;
  assigned_to = none;
  origin_channel = portal;
  first_response_at = none;
  resolved_at = none;
  department = 3;
  branch = 4;
  created_at = 10;
  deleted_at = none;
  deleted_by = none;
}

abbrev desk : Desk
desk = record {
  now = 100;
  next_pk = 20;
  details =
      record { contact = 7; kind = email; value = "noura@example.com"; deleted_at = none } ∷ [];
  tickets = asked ∷ [];
  messages = [];
}

reopened :
    (reply_to noura "AZM-2026-000008" "Still broken" desk).1.tickets
    ≡ record asked { status = opened } ∷ []
unfolding reply_to request_for requests_for newest_first contact_ids_for reopen_for_customer_reply
    apply_transition save
reopened = refl

reply_to-IsReply_example :
    IsReply noura "AZM-2026-000008" desk (reply_to noura "AZM-2026-000008" "Still broken" desk)
reply_to-IsReply_example = reply_to-IsReply noura "AZM-2026-000008" "Still broken" desk
