-- ===== src/Portal/Registration/Silence.antt =====
-- About `register` of apps/portal/services/registration.py: what the person at the form can
-- learn, and who is written to.
use azm_crm.Prelude.{
  String, Option, none, some, false, ◌≡◌, refl, sym, ap, ◌∙◌, arith, Bool-cases, inl, inr, ◌⊎◌,
  List, [], ◌∷◌, ◌++◌,
}
use azm_crm.Core.Text.{is_empty}
use text.Mathlib.Text.{◌==◌ as str_eq}
use text.Mathlib.TextEquality.{eq_iff}
use azm_crm.Portal.Model.{
  Account, Language, Site, Mail, send_confirmation, send_reset, send_already_registered, normalize,
  find_account, is_confirmed,
}
use azm_crm.Portal.Tokens.{issue}
use azm_crm.Portal.Registration.{
  Outcome, ok, is_staff, create_account, issue_confirmation, spend_the_same_effort, register,
  register_as, answer_known,
}

abbrev pub recipient : Mail → String
recipient (send_confirmation to _ _) = to
recipient (send_reset to _ _) = to
recipient (send_already_registered to _) = to

-- The caller is told nothing, and at most one message was sent, to the address itself.
abbrev pub IsQuiet : String → Site → Outcome (Unit {0}) × Site → Type 0
IsQuiet address s (o, s') =
    (o ≡ ok tt)
    × ((s'.mail ≡ s.mail) ⊎ ((m : Mail) × (s'.mail ≡ s.mail ++ m ∷ []) × (recipient m ≡ address)))

find_account_lem :
    (email : String) (rows : List Account) (a : Account)
    → find_account email rows ≡ some a
    → a.email ≡ email
find_account_lem email [] a e = cc
find_account_lem email (x ∷ rows) a e = elim (Bool-cases (str_eq x.email email)) [
  | inl h ↦ ap (λ (y : Account). y.email) (sym (some_inj (rw h at e))) ∙ (eq_iff x.email email).0 h
  | inr h ↦ find_account_lem email rows a (rw h at e)
]
  where
    some_inj : {x y : Account} → some x ≡ some y → x ≡ y
    some_inj h = ground arith

-- For an address that normalizing leaves not empty, and once normalized leaves as it is,
-- `register` answers the caller in the one way whoever the address belongs to, and at most one
-- message is sent, to the address itself.
pub register-IsQuiet :
    (email password : String) (language : Language) (s : Site)
    → normalize s.library (normalize s.library email) ≡ normalize s.library email
    → is_empty (normalize s.library email) ≡ false
    → IsQuiet (normalize s.library email) s (register email password language s)
unfolding register
register-IsQuiet email password language s stable full =
    asked (find_account (normalize s.library email) s.accounts) refl
  where
    known :
        (a : Account)
        → a.email ≡ normalize s.library email
        → IsQuiet (normalize s.library email) s (ok tt, answer_known a (spend_the_same_effort s))
    known a e =
        unfold spend_the_same_effort issue_confirmation issue in
        elim (Bool-cases (is_confirmed a)) [
          | inl c ↦ rw c (refl, inr (_, refl, e))
          | inr c ↦ rw c (refl, inr (_, refl, e))
        ]

    asked :
        (found : Option Account)
        → find_account (normalize s.library email) s.accounts ≡ found
        → IsQuiet
            (normalize s.library email)
            s
            (register_as (normalize s.library email) password language found s)
    asked none e =
        unfold spend_the_same_effort create_account issue_confirmation issue in
        elim (Bool-cases (is_staff (normalize s.library email) s)) [
          | inl staff ↦ rw staff (refl, inl refl)
          | inr other ↦ rw (other, stable, full, other) (refl, inr (_, refl, stable))
        ]
    asked (some a) e = known a (find_account_lem _ s.accounts a e)
