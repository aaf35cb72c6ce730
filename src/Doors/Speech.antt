-- ===== src/Doors/Speech.antt =====
-- About the doors: the language that a customer's page is made in, and that of the thread after it.
use azm_crm.Prelude.{String, none, some, Bool, true, false, ◌||◌, not, ◌≡◌, refl, ap, ◌∙◌}
use azm_crm.Core.Text.{is_empty}
use azm_crm.Portal.Model.{Language, arabic, english, Account, Site}
use azm_crm.Portal.Auth.{customer_from_session}
use azm_crm.Doors.{
  Web, Request, Reply, viewed, Handler, is_portal_path, is_exempt, is_a_customer_on_a_portal_path,
  login_required, speak, languages, one_of, language_value, with_customer, customer_session,
  user_language, reached, serve,
}
use azm_crm.Doors.Wall.{wall-opens}

is_spoken :
    (x : Language)
    → (is_empty (language_value x) || not (one_of languages (language_value x))) ≡ false
is_spoken arabic = refl
is_spoken english = refl

or_true : (b : Bool) → (b || true) ≡ true
or_true true = refl
or_true false = refl

-- A language that is activated is the thread's.
abbrev pub Activates : {T : Type 0} → Web T → Type 0
Activates {T} web = (l : String) (t : T) → web.get_language (web.activate l t) ≡ some l

module _ {T V : Type 0} (web : Web T) (activates : Activates web) (site : Site)
    (view : Request → T → V × T) where
  speak-restores :
      (l before : String) (h : Handler T V) (r : Request) (t : T)
      → (is_empty l || not (one_of languages l)) ≡ false
      → web.get_language t ≡ some before
      → is_empty before ≡ false
      → ((speak web (some l) h r t).0 ≡ (h (record r { language_code = l }) (web.activate l t)).0)
        × (web.get_language (speak web (some l) h r t).1 ≡ some before)
  unfolding speak
  speak-restores l before h r t spoken was inked =
      (rw spoken refl, rw (spoken, was, inked) (activates before _))

  serve-anonymous :
      (r : Request) (t : T)
      → r.user ≡ none
      → serve web site view r t ≡ customer_session web site (login_required web (reached view)) r t
  unfolding serve user_language speak
  serve-anonymous r t nobody = rw nobody refl

  customer_session-portal :
      (r : Request) (t : T) (c : Account)
      → r.user ≡ none
      → is_portal_path web r ≡ true
      → customer_from_session r.session site ≡ some c
      → customer_session web site (login_required web (reached view)) r t
        ≡ speak web
            (some (language_value c.language))
            (login_required web (reached view))
            (with_customer site r)
            t
  unfolding customer_session is_portal_path
  customer_session-portal r t c nobody portal customer = rw (nobody, portal, customer) refl

  -- When `activate` sets the thread's language, and the thread has one, a customer who is not
  -- signed in as staff and whose session is served gets on every portal path the view's answer,
  -- made while the thread has the customer's language, which the request also names; and
  -- afterwards the thread has the language it had before, whatever the view did to it.
  pub serve-speaks :
      (r : Request) (t : T) (c : Account) (before : String)
      → r.user ≡ none
      → is_portal_path web r ≡ true
      → customer_from_session r.session site ≡ some c
      → web.get_language t ≡ some before
      → is_empty before ≡ false
      → (t₁ : T) × (web.get_language t₁ ≡ some (language_value c.language))
        × ((serve web site view r t).0
            ≡ viewed
                (view
                  (record (with_customer site r) { language_code = language_value c.language })
                  t₁).0)
        × (web.get_language (serve web site view r t).1 ≡ some before)
  unfolding is_portal_path is_a_customer_on_a_portal_path is_exempt
  serve-speaks r t c before nobody portal customer was inked =
      let (shown, after) =
        speak-restores l before (login_required web (reached view)) (with_customer site r) t
          (is_spoken c.language) was inked in
      (
        web.activate l t,
        activates l t,
        ap (λ (a : Reply V × T). a.0) path
            ∙ shown
            ∙ wall-opens web site view (record (with_customer site r) { language_code = l })
                (web.activate l t) nobody (rw (customer, portal) (or_true _)),
        ap (λ (a : Reply V × T). web.get_language a.1) path ∙ after,
      )
    where
      l : String
      l = language_value c.language

      path :
          serve web site view r t
          ≡ speak web (some l) (login_required web (reached view)) (with_customer site r) t
      path = serve-anonymous r t nobody ∙ customer_session-portal r t c nobody portal customer
