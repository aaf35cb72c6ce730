-- ===== src/Doors.antt =====
-- The doors of the application: `LoginRequiredMiddleware` and `UserLanguageMiddleware` of
-- apps/core/middleware.py, and apps/portal/middleware.py, in the order of config/settings/base.py.
-- A handler takes a request and the state of the thread, which has the language, and gives its
-- reply, an exception included, and the state after it.
pub mod Wall
pub mod Speech
mod Tests
use Prim.Native.String.{◌++◌ as append}
use azm_crm.Prelude.{
  ℕ, String, Option, none, some, Bool, true, false, ◌&&◌, ◌||◌, not, List, [], ◌∷◌, map, any,
  is_some, if◌then◌else◌,
}
use text.Mathlib.Text.{◌==◌ as str_eq}
use azm_crm.Core.Text.{is_empty, starts_with}
use azm_crm.Portal.Model.{Language, arabic, english, Account, Site}
use azm_crm.Portal.Auth.{Session, customer_from_session}

-- What `resolve` finds for a path.
pub record Match : Type 0 where
  pub namespace : String
  pub url_name : Option String

-- The framework: `resolve` (none when it raises `Resolver404`), the two settings that are read, and
-- the language of a thread.
pub record Web (T : Type 0) : Type 0 where
  pub resolve : String → Option Match
  pub static_url : String
  pub login_url : String
  pub get_language : T → Option String
  pub activate : String → T → T
  pub deactivate : T → T

-- A member of staff whose session is authenticated.
pub record Staff : Type 0 where
  pub pk : ℕ
  pub language : String

pub record Request : Type 0 where
  pub path_info : String
  pub full_path : String
  pub user : Option Staff
  pub session : Session
  pub customer : Option Account
  pub language_code : String

pub data Reply (V : Type 0) : Type 0 where
  viewed : V → Reply V
  portal_is_for_customers : Staff → Reply V
  redirect_to_login : String → String → Reply V

abbrev pub languages : List String
languages = "ar" ∷ "en" ∷ []

abbrev pub language_value : Language → String
language_value arabic = "ar"
language_value english = "en"

abbrev pub exempt_names : List String
exempt_names =
    "intake:form" ∷ "intake:submitted" ∷ "accounts:sign_in" ∷ "messaging:inbound_webhook"
    ∷ "chat:availability" ∷ "chat:widget" ∷ "chat:start" ∷ "chat:leave_queue" ∷ "javascript-catalog"
    ∷ "accounts:anonymous_language" ∷ "accounts:quick_sign_in" ∷ "portal:register"
    ∷ "portal:register_done" ∷ "portal:confirm" ∷ "portal:resend_confirmation" ∷ "portal:sign_in"
    ∷ "portal:sign_out" ∷ "portal:reset" ∷ "portal:reset_sent" ∷ "portal:reset_confirm" ∷ []

abbrev pub one_of : List String → String → Bool
one_of names s = any (λ n. str_eq n s) names

abbrev pub full_name : Match → Option String
full_name m =
    if is_empty m.namespace
    then m.url_name
    else some (append m.namespace (append ":" (text_of m.url_name)))
  where
    text_of : Option String → String
    text_of none = "None"
    text_of (some n) = n

abbrev pub name_of : Option Match → Option String
name_of none = none
name_of (some m) = full_name m

abbrev pub is_exempt_name : Option String → Bool
is_exempt_name none = false
is_exempt_name (some n) = one_of exempt_names n

abbrev pub in_portal : Option Match → Bool
in_portal none = false
in_portal (some m) = str_eq m.namespace "portal"

abbrev pub Handler : Type 0 → Type 0 → Type 0
Handler T V = Request → T → Reply V × T

abbrev pub staff_language : Option Staff → Option String
staff_language none = none
staff_language (some u) = some u.language

abbrev pub customer_language : Option Account → Option String
customer_language none = none
customer_language (some a) = some (language_value a.language)

abbrev pub with_customer : Site → Request → Request
with_customer site r = record r { customer = customer_from_session r.session site }

abbrev pub reached : {T V : Type 0} → (Request → T → V × T) → Handler T V
reached view r t = let answer = view r t in (viewed answer.0, answer.1)

module _ {T : Type 0} (web : Web T) where
  unfoldable pub is_portal_path : Request → Bool
  is_portal_path r = in_portal (web.resolve r.path_info)

  -- `_is_asset`
  unfoldable pub is_asset : String → Bool
  is_asset path =
      not (is_empty web.static_url)
      && (not (one_of ("" ∷ "/" ∷ []) web.static_url) && starts_with web.static_url path)

  unfoldable pub is_a_customer_on_a_portal_path : Request → Bool
  unfolding is_portal_path
  is_a_customer_on_a_portal_path r = is_some r.customer && is_portal_path r

  unfoldable pub is_exempt : Request → Bool
  is_exempt r = is_exempt_name (name_of (web.resolve r.path_info))

  -- `LoginRequiredMiddleware.__call__`
  unfoldable pub login_required : {V : Type 0} → Handler T V → Handler T V
  unfolding is_asset is_a_customer_on_a_portal_path is_exempt
  login_required get_response r t =
      if is_some r.user || is_asset r.path_info
      then get_response r t
      else if is_a_customer_on_a_portal_path r || is_exempt r
      then get_response r t
      else (redirect_to_login r.full_path web.login_url, t)

  abbrev pub restored : Option String → T → T
  restored none t = web.deactivate t
  restored (some l) t = if is_empty l then web.deactivate t else web.activate l t

  abbrev pub restore : {V : Type 0} → Option String → Reply V × T → Reply V × T
  restore previous (a, t) = (a, restored previous t)

  -- The end of both language doors.
  unfoldable pub speak : {V : Type 0} → Option String → Handler T V → Handler T V
  speak none get_response r t = get_response r t
  speak (some l) get_response r t =
      if is_empty l || not (one_of languages l)
      then get_response r t
      else restore (web.get_language t)
          (get_response (record r { language_code = l }) (web.activate l t))

  -- `UserLanguageMiddleware.__call__`
  unfoldable pub user_language : {V : Type 0} → Handler T V → Handler T V
  unfolding speak
  user_language get_response r t = speak (staff_language r.user) get_response r t

  abbrev pub portal_door : {V : Type 0} → Option Staff → Handler T V → Handler T V
  portal_door (some u) get_response r t = (portal_is_for_customers u, t)
  portal_door none get_response r t = speak (customer_language r.customer) get_response r t

  -- `CustomerSessionMiddleware.__call__`
  unfoldable pub customer_session : {V : Type 0} → Site → Handler T V → Handler T V
  unfolding is_portal_path customer_from_session
  customer_session site get_response r t =
      if not (is_portal_path r)
      then get_response (with_customer site r) t
      else portal_door r.user get_response (with_customer site r) t

  unfoldable pub serve : {V : Type 0} → Site → (Request → T → V × T) → Handler T V
  unfolding login_required user_language customer_session
  serve site view = user_language (customer_session site (login_required (reached view)))
