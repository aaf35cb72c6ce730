-- ===== src/Doors/Tests.antt =====
-- A customer and a member of staff at the doors.
use azm_crm.Prelude.{String, Option, none, some, true, [], ◌∷◌, if◌then◌else◌, ◌≡◌, refl}
use text.Mathlib.Text.{◌==◌ as str_eq}
use azm_crm.Core.Text.{starts_with}
use azm_crm.Portal.Model.{arabic, Account, Library, Site}
use azm_crm.Portal.Auth.{customer_from_session, session_fingerprint}
use azm_crm.Doors.{
  Match, Web, Staff, Request, viewed, portal_is_for_customers, redirect_to_login, language_value,
  with_customer, is_portal_path, serve,
}
use azm_crm.Doors.Wall.{Served, serve-Served}
use azm_crm.Doors.Speech.{serve-speaks}

abbrev library : Library
library = record {
  lower = λ s. s;
  token_urlsafe = λ n. "link";
  sha256 = λ s. s;
  salted_hmac = λ s. s;
  make_password = λ n s. s;
  check_password = λ raw hash. (str_eq raw hash, none);
  is_acceptable = λ password email. true;
  iexact = str_eq;
}

abbrev noura : Account
noura = record {
  pk = 1;
  email = "noura@example.com";
  password = "old";
  email_confirmed_at = some 50;
  language = arabic;
  is_active = true;
  failed_sign_ins = 0;
  locked_until = none;
}

abbrev site : Site
site = record {
  library = library;
  settings = record {
    lockout_threshold = 10;
    lockout_seconds = 900;
    confirmation_link_seconds = 259200;
    reset_link_seconds = 3600;
  };
  now = 100;
  draws = 0;
  next_pk = 5;
  accounts = noura ∷ [];
  tokens = [];
  staff = [];
  mail = [];
}

abbrev match_path : String → Option Match
match_path path =
    if str_eq path "/portal/"
    then some (record { namespace = "portal"; url_name = some "requests" })
    else if str_eq path "/portal/register/"
    then some (record { namespace = "portal"; url_name = some "register" })
    else if str_eq path "/tickets/"
    then some (record { namespace = "tickets"; url_name = some "queue" })
    else none

-- The state of a thread is its language.
abbrev web : Web String
web = record {
  resolve = match_path;
  static_url = "/static/";
  login_url = "accounts:sign_in";
  get_language = λ t. some t;
  activate = λ l t. l;
  deactivate = λ t. "en";
}

abbrev asks : String → Request
asks path = record {
  path_info = path;
  full_path = path;
  user = none;
  session = record { customer = some 1; fingerprint = "old" };
  customer = none;
  language_code = "en";
}

-- The view shows the page's language, and leaves the thread in another.
abbrev view : Request → String → String × String
view r t = (r.language_code, "fr")

abbrev omar : Staff
omar = record { pk = 12; language = "en" }

customer_at_tickets :
    serve web site view (asks "/tickets/") "en"
    ≡ (redirect_to_login "/tickets/" "accounts:sign_in", "en")
unfolding serve starts_with
customer_at_tickets = refl

staff_at_portal :
    serve web site view (record (asks "/portal/") { user = some omar }) "ar"
    ≡ (portal_is_for_customers omar, "ar")
unfolding serve
staff_at_portal = refl

stranger_registers :
    serve web site view
      (record (asks "/portal/register/") { session = record { customer = none; fingerprint = "" } })
      "en"
    ≡ (viewed "en", "fr")
unfolding serve starts_with
stranger_registers = refl

serve-Served_example :
    Served web site view (asks "/portal/") (serve web site view (asks "/portal/") "en").0
serve-Served_example = serve-Served web site view (asks "/portal/") "en"

serve-speaks_example :
    (t₁ : String) × (web.get_language t₁ ≡ some (language_value arabic))
    × ((serve web site view (asks "/portal/") "en").0
        ≡ viewed
            (view
              (record (with_customer site (asks "/portal/")) {
                language_code = language_value arabic;
              })
              t₁).0)
    × (web.get_language (serve web site view (asks "/portal/") "en").1 ≡ some "en")
unfolding is_portal_path customer_from_session session_fingerprint
serve-speaks_example =
    serve-speaks web (λ l t. refl) site view (asks "/portal/") "en" noura "en" refl refl refl refl
      refl
