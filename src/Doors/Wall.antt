-- ===== src/Doors/Wall.antt =====
-- About the doors: which requests reach a view, as what, and in which language.
use azm_crm.Prelude.{
  String, Option, none, some, Bool, true, false, ◌&&◌, ◌||◌, not, is_some, if◌then◌else◌, ◌≡◌, refl,
  ap, ◌∙◌, Option-cases, Bool-cases, inl, inr,
}
use azm_crm.Core.Text.{is_empty}
use azm_crm.Portal.Model.{Account, Site}
use azm_crm.Portal.Auth.{customer_from_session}
use azm_crm.Doors.{
  Web, Staff, Request, Reply, viewed, portal_is_for_customers, redirect_to_login, Handler,
  is_portal_path, is_asset, is_exempt, is_a_customer_on_a_portal_path, login_required, speak,
  with_customer, customer_session, user_language, reached, serve, staff_language, customer_language,
  languages, one_of,
}

-- The two tests of the wall, of which each takes two conditions.
if-opens {ℓ} :
    {A : Type ℓ} (x y : A) (staff asset exempt customer : Bool)
    → staff ≡ false
    → ((asset || exempt) || customer) ≡ true
    → (if staff || asset then x else if customer || exempt then x else y) ≡ x
if-opens x y false true exempt customer nobody free = refl
if-opens x y false false true true nobody free = refl
if-opens x y false false true false nobody free = refl
if-opens x y false false false true nobody free = refl
if-opens x y false false false false nobody free = absurd (cc free)
if-opens x y true asset exempt customer nobody free = absurd (cc nobody)

if-shuts {ℓ} :
    {A : Type ℓ} (x y : A) (staff asset exempt customer : Bool)
    → staff ≡ false
    → ((asset || exempt) || customer) ≡ false
    → (if staff || asset then x else if customer || exempt then x else y) ≡ y
if-shuts x y false false false false nobody shut = refl
if-shuts x y true asset exempt customer nobody shut = absurd (cc nobody)
if-shuts x y false true exempt customer nobody shut = absurd (cc shut)
if-shuts x y false false true customer nobody shut = absurd (cc shut)
if-shuts x y false false false true nobody shut = absurd (cc shut)

module _ {T V : Type 0} (web : Web T) (site : Site) (view : Request → T → V × T) where
  -- The view answers a request that is `r` with its customer, whatever its language.
  abbrev pub Reaches : Request → Reply V → Type 0
  Reaches r a =
      (code : String) × (t : T) × (a
        ≡ viewed
            (view
              (record r { customer = customer_from_session r.session site; language_code = code })
              t).0)

  pub data Served (r : Request) (a : Reply V) : Type 0 where
    to_staff :
        (u : Staff) → r.user ≡ some u → is_portal_path web r ≡ false → Reaches r a → Served r a
    to_customer :
        (c : Account)
        → r.user ≡ none
        → customer_from_session r.session site ≡ some c
        → is_portal_path web r ≡ true
        → Reaches r a
        → Served r a
    to_anyone :
        r.user ≡ none
        → (is_asset web r.path_info || is_exempt web r) ≡ true
        → Reaches r a
        → Served r a
    staff_refused :
        (u : Staff)
        → r.user ≡ some u
        → is_portal_path web r ≡ true
        → a ≡ portal_is_for_customers u
        → Served r a
    sent_to_login :
        r.user ≡ none
        → (is_asset web r.path_info || is_exempt web r) ≡ false
        → (is_some (customer_from_session r.session site) && is_portal_path web r) ≡ false
        → a ≡ redirect_to_login r.full_path web.login_url
        → Served r a

  -- Behind the language doors, a request is answered as it is before them, in some language.
  speak-cases :
      (l : Option String) (h : Handler T V) (r : Request) (t : T)
      → (code : String) × (t₁ : T) × ((speak web l h r t).0
          ≡ (h (record r { language_code = code }) t₁).0)
  unfolding speak
  speak-cases none h r t = (r.language_code, t, refl)
  speak-cases (some l) h r t = elim (Bool-cases (is_empty l || not (one_of languages l))) [
    | inl e ↦ (r.language_code, t, rw e refl)
    | inr e ↦ (l, web.activate l t, rw e refl)
  ]

  -- The wall, for one who is not of the staff.
  pub wall-opens :
      (q : Request) (t : T)
      → q.user ≡ none
      → ((is_asset web q.path_info || is_exempt web q) || is_a_customer_on_a_portal_path web q)
        ≡ true
      → (login_required web (reached view) q t).0 ≡ viewed (view q t).0
  unfolding login_required
  wall-opens q t nobody free = ap first_of (
      if-opens (reached view q t) (redirect_to_login q.full_path web.login_url, t) (is_some q.user)
        (is_asset web q.path_info) (is_exempt web q) (is_a_customer_on_a_portal_path web q)
        (ap is_some nobody) free)
    where
      first_of : Reply V × T → Reply V
      first_of a = a.0

  wall-shuts :
      (q : Request) (t : T)
      → q.user ≡ none
      → ((is_asset web q.path_info || is_exempt web q) || is_a_customer_on_a_portal_path web q)
        ≡ false
      → (login_required web (reached view) q t).0 ≡ redirect_to_login q.full_path web.login_url
  unfolding login_required
  wall-shuts q t nobody shut = ap first_of (
      if-shuts (reached view q t) (redirect_to_login q.full_path web.login_url, t) (is_some q.user)
        (is_asset web q.path_info) (is_exempt web q) (is_a_customer_on_a_portal_path web q)
        (ap is_some nobody) shut)
    where
      first_of : Reply V × T → Reply V
      first_of a = a.0

  wall-passes :
      (q : Request) (t : T) (u : Staff)
      → q.user ≡ some u
      → (login_required web (reached view) q t).0 ≡ viewed (view q t).0
  unfolding login_required
  wall-passes q t u staff = rw staff refl

  behind_wall :
      (r : Request) (code : String) (t : T)
      → r.user ≡ none
      → Served r
          (login_required web
            (reached view)
            (record (with_customer site r) { language_code = code })
            t).0
  unfolding is_portal_path is_a_customer_on_a_portal_path is_exempt
  behind_wall r code t nobody = elim (Bool-cases (is_asset web r.path_info || is_exempt web r)) [
    | inl e ↦ to_anyone nobody e (code, t, wall-opens q t nobody (rw e refl))
    | inr e ↦ elim (Option-cases (customer_from_session r.session site)) [
      | inl e₁ ↦ sent_to_login nobody e (rw e₁ refl) (wall-shuts q t nobody (rw (e, e₁) refl))
      | inr (c, e₁) ↦ elim (Bool-cases (is_portal_path web r)) [
        | inl e₂ ↦ to_customer c nobody e₁ e₂ (code, t, wall-opens q t nobody (rw (e, e₁, e₂) refl))
        | inr e₂ ↦
            sent_to_login nobody e (rw (e₁, e₂) refl) (wall-shuts q t nobody (rw (e, e₁, e₂) refl))
      ]
    ]
  ]
    where
      q : Request
      q = record (with_customer site r) { language_code = code }

  portal-nobody :
      (r : Request) (t : T)
      → is_portal_path web r ≡ true
      → r.user ≡ none
      → (customer_session web site (login_required web (reached view)) r t).0
        ≡ (speak web
            (customer_language (customer_from_session r.session site))
            (login_required web (reached view))
            (with_customer site r)
            t).0
  unfolding customer_session is_portal_path
  portal-nobody r t e nobody = rw (e, nobody) refl

  behind_portal :
      (r : Request) (code : String) (t : T)
      → Served r
          (customer_session web site
            (login_required web (reached view))
            (record r { language_code = code })
            t).0
  unfolding customer_session is_portal_path
  behind_portal r code t = elim (Bool-cases (is_portal_path web r)) [
    | inl e ↦ elim (Option-cases r.user) [
      | inl nobody ↦
          let (spoken, t₁, e₁) =
            speak-cases (customer_language (customer_from_session r.session site))
              (login_required web (reached view)) q t in
          rw (portal-nobody (record r { language_code = code }) t e nobody ∙ e₁)
            (behind_wall r spoken t₁ nobody)
      | inr (u, staff) ↦ staff_refused u staff e (rw (e, staff) refl)
    ]
    | inr e ↦ elim (Option-cases r.user) [
      | inl nobody ↦ rw e (behind_wall r code t nobody)
      | inr (u, staff) ↦ to_staff u staff e (code, t, rw e (wall-passes q t u staff))
    ]
  ]
    where
      q : Request
      q = record (with_customer site r) { language_code = code }

  -- Any request, through the three doors of the middlewares in their order, ends in one of five
  -- ways. A member of staff reaches the view of a path that is not the portal's, and is refused
  -- on one that is. One who is not signed in as staff reaches the view of a portal path as the
  -- customer of their session, and the view of an asset or of an exempt name; for anything else
  -- they are sent to the sign-in page. A view that is reached sees the request with its session's
  -- customer and a language, otherwise as it came.
  pub serve-Served : (r : Request) (t : T) → Served r (serve web site view r t).0
  unfolding serve user_language
  serve-Served r t =
      let (code, t₁, e) =
        speak-cases (staff_language r.user)
          (customer_session web site (login_required web (reached view))) r t in
      rw e (behind_portal r code t₁)
