-- ===== src/Portal/Auth/Lockout.antt =====
-- About sign-in in apps/portal/auth.py and the lock of apps/portal/models.py.
use azm_crm.Prelude.{
  ℕ, suc, ◌+◌, ◌<◌, ltb, List, [], ◌∷◌, length, leb, ◌≤◌, ◌==◌, ==_iff, first, update_where,
  or_else, subst, not, if◌then◌else◌, String, Option, none, some, Bool, true, false, ◌≡◌, refl,
  arith, Bool-cases, inl, inr, ◌⊎◌, sym, ap,
}
use azm_crm.Portal.Model.{
  Account, Settings, Site, is_locked, is_confirmed, record_failed_sign_in, clear_failed_sign_ins,
  find_account, normalize, save_account, account_of,
}
use azm_crm.Portal.Auth.{
  SignIn, signed_in, unconfirmed, refused, authenticate_customer, check, admit, fail, succeed,
  upgrade, try_account,
}

-- Failures at moments of any order, the latest at the head.
unfoldable pub fail_at : List ℕ → Settings → Account → Account
fail_at [] s a = a
fail_at (now ∷ moments) s a = (record_failed_sign_in s now (fail_at moments s a)).1

fail_at-below :
    (moments : List ℕ) (s : Settings) (a : Account)
    → a.failed_sign_ins ≡ 0
    → a.locked_until ≡ none
    → length moments < s.lockout_threshold
    → ((fail_at moments s a).failed_sign_ins ≡ length moments)
      × ((fail_at moments s a).locked_until ≡ none)
unfolding fail_at record_failed_sign_in
fail_at-below [] s a h k lt = (h, k)
fail_at-below (now ∷ moments) s a h k lt =
    let before = fail_at-below moments s a h k (omega arith) in ground (arith, before.0, before.1)

-- Let an account with no failures and no lock fail at any moments, one time less than the
-- threshold: it is not locked at any moment. The next failure, at whatever moment, reports that
-- it locked the account, and the account is then locked at just the moments before that one with
-- the lock time added.
pub locks_at_threshold :
    (moments : List ℕ) (now : ℕ) (s : Settings) (a : Account)
    → a.failed_sign_ins ≡ 0
    → a.locked_until ≡ none
    → s.lockout_threshold ≡ suc (length moments)
    → ((later : ℕ) → is_locked later (fail_at moments s a) ≡ false)
      × ((record_failed_sign_in s now (fail_at moments s a)).0 ≡ true)
      × ((later : ℕ)
          → is_locked later (fail_at (now ∷ moments) s a) ≡ ltb later (now + s.lockout_seconds))
unfolding fail_at record_failed_sign_in
locks_at_threshold moments now s a h k t =
    let before = fail_at-below moments s a h k (omega arith) in
    (
      λ later. ground (arith, before.1),
      ground (arith, before.0, before.1),
      λ later. ground (arith, before.0, before.1),
    )

-- The row of `a` has become `b`, and nothing else of the site has changed.
abbrev pub IsSaved : Site → Account → Account → Site → Type 0
IsSaved s a b s' = (s' ≡ save_account a.pk (λ _. b) s) × (account_of a.pk s'.accounts ≡ some b)

-- The account after the right password: without failures or a lock, and with a new hash if
-- `check_password` asked for one.
abbrev pub cleared : Site → String → Account → Account
cleared s password a = record a {
  password = or_else (s.library.check_password password a.password).1 a.password;
  failed_sign_ins = 0;
  locked_until = none;
}

-- The account after a wrong one: one failure more, and a lock when there are enough.
abbrev pub IsFailure : Site → Account → Account → Option Account → Type 0
IsFailure s a b locked =
    (b ≡ record a { failed_sign_ins = a.failed_sign_ins + 1; locked_until = b.locked_until })
    × (((s.settings.lockout_threshold ≤ a.failed_sign_ins + 1)
          × (b.locked_until ≡ some (s.now + s.settings.lockout_seconds))
          × (locked ≡ some b))
        ⊎ ((a.failed_sign_ins + 1 < s.settings.lockout_threshold)
            × (b.locked_until ≡ a.locked_until)
            × (locked ≡ none)))

-- How a call comes out, against the row of the address that was given.
abbrev pub Verdict : Site → Option Account → String → (SignIn × Option Account) × Site → Type 0
Verdict s none password ((o, locked), s') = (o ≡ refused) × (locked ≡ none) × (s' ≡ s)
Verdict s (some a) password ((signed_in b, locked), s') =
    (is_locked s.now a ≡ false)
    × ((s.library.check_password password a.password).0 ≡ true)
    × (a.is_active ≡ true)
    × (is_confirmed a ≡ true)
    × (b ≡ cleared s password a)
    × IsSaved s a b s'
    × (locked ≡ none)
Verdict s (some a) password ((unconfirmed b, locked), s') =
    (is_locked s.now a ≡ false)
    × ((s.library.check_password password a.password).0 ≡ true)
    × (a.is_active ≡ true)
    × (is_confirmed a ≡ false)
    × (b ≡ cleared s password a)
    × IsSaved s a b s'
    × (locked ≡ none)
Verdict s (some a) password ((refused, locked), s') =
    ((is_locked s.now a ≡ true) × (locked ≡ none) × (s' ≡ s))
    ⊎ ((is_locked s.now a ≡ false)
        × ((s.library.check_password password a.password).0 ≡ false)
        × ((b : Account) × IsFailure s a b locked × IsSaved s a b s'))
    ⊎ ((is_locked s.now a ≡ false)
        × ((s.library.check_password password a.password).0 ≡ true)
        × (a.is_active ≡ false)
        × IsSaved s a (cleared s password a) s'
        × (locked ≡ none))

-- A row that is there is found after it was replaced.
account_of-replaced :
    (p : Account → Bool) (a b : Account) (rows : List Account)
    → b.pk ≡ a.pk
    → first p rows ≡ some a
    → account_of a.pk (update_where (λ r. r.pk == a.pk) (λ _. b) rows) ≡ some b
account_of-replaced p a b [] same e = absurd (cc e)
account_of-replaced p a b (r ∷ rows) same e = elim (Bool-cases (r.pk == a.pk)) [
  | inl h ↦ let here : (b.pk == a.pk) ≡ true = (==_iff b.pk a.pk).1 same in rw (h, here) refl
  | inr h ↦ elim (Bool-cases (p r)) [
    | inl found ↦
        let this : some r ≡ some a = rw found at e in
        let same_row : r ≡ a = cc this in
        absurd (cc (h, (==_iff r.pk a.pk).1 (ap (λ (x : Account). x.pk) same_row)))
    | inr other ↦ rw (h, h) (account_of-replaced p a b rows same (rw other at e))
  ]
]

module _ (email password : String) (s : Site) (a : Account)
    (found : find_account email s.accounts ≡ some a) (unlocked : is_locked s.now a ≡ false) where
  saved : (b : Account) → b.pk ≡ a.pk → IsSaved s a b (save_account a.pk (λ _. b) s)
  saved b same = (refl, account_of-replaced _ a b s.accounts same found)

  failed :
      (s.library.check_password password a.password).0 ≡ false
      → Verdict s (some a) password (fail (record_failed_sign_in s.settings s.now a) s)
  unfolding record_failed_sign_in
  failed wrong = elim (Bool-cases (leb s.settings.lockout_threshold (a.failed_sign_ins + 1))) [
    | inl e ↦
        rw (unlocked, e)
          (inr
            (inl (unlocked, wrong, (_, (refl, inl (ground (arith, e), refl, refl)), saved _ refl))))
    | inr e ↦
        rw (unlocked, e)
          (inr
            (inl (unlocked, wrong, (_, (refl, inr (ground (arith, e), refl, refl)), saved _ refl))))
  ]

  admitted :
      (b : Account) (s' : Site)
      → (s.library.check_password password a.password).0 ≡ true
      → b ≡ cleared s password a
      → b.is_active ≡ a.is_active
      → is_confirmed b ≡ is_confirmed a
      → IsSaved s a b s'
      → Verdict s (some a) password ((admit b, none), s')
  admitted b s' right e act conf kept = answers b.is_active (is_confirmed b) act conf
    where
      answers :
          (active confirmed : Bool)
          → active ≡ a.is_active
          → confirmed ≡ is_confirmed a
          → Verdict s (some a) password (
            (
              if not active then refused else if not confirmed then unconfirmed b else signed_in b,
              none,
            ),
            s',
          )
      answers false confirmed n c =
          inr (inr (unlocked, right, sym n, subst (λ x. IsSaved s a x s') e kept, refl))
      answers true true y c = (unlocked, right, sym y, sym c, e, kept, refl)
      answers true false y c = (unlocked, right, sym y, sym c, e, kept, refl)

  upgrade-cleared :
      (h : Option String)
      → (s.library.check_password password a.password).1 ≡ h
      → clear_failed_sign_ins (upgrade h a) ≡ cleared s password a
  unfolding clear_failed_sign_ins
  upgrade-cleared none e = rw e refl
  upgrade-cleared (some hash) e = rw e refl

  succeeded :
      (h : Option String)
      → (s.library.check_password password a.password).0 ≡ true
      → (s.library.check_password password a.password).1 ≡ h
      → Verdict s (some a) password (succeed (clear_failed_sign_ins (upgrade h a)) s)
  succeeded h right e =
      let same = upgrade-cleared h e in
      subst (λ b. Verdict s (some a) password (succeed b s)) (sym same)
        (admitted (cleared s password a) _ right refl refl refl (saved _ refl))

  checked :
      (r : Bool × Option String)
      → s.library.check_password password a.password ≡ r
      → Verdict s (some a) password (check a r s)
  checked (false, h) e = failed (ap (λ (x : Bool × Option String). x.0) e)
  checked (true, h) e =
      succeeded h (ap (λ (x : Bool × Option String). x.0) e)
        (ap (λ (x : Bool × Option String). x.1) e)

-- A sign-in succeeds, or is told to confirm, only for an account that was not locked, with its
-- right password, and that is active, and is confirmed or not in turn. An unknown address or a
-- locked account is refused with nothing changed, whatever the password. Else the refusal is for
-- a wrong password or for an account that is not active. With the right password the account's
-- row has lost its failures and its lock, and has the new hash if one was made; with a wrong one
-- it has one failure more and, exactly when these reach the threshold, a lock for the lock time,
-- which is reported. The row is found again as the call gives it, and nothing else of the site
-- changes.
pub authenticate_customer-Verdict :
    (email password : String) (s : Site)
    → Verdict s
        (find_account (normalize s.library email) s.accounts)
        password
        (authenticate_customer email password s)
unfolding authenticate_customer
authenticate_customer-Verdict email password s =
    tried (find_account (normalize s.library email) s.accounts) refl
  where
    tried :
        (row : Option Account)
        → find_account (normalize s.library email) s.accounts ≡ row
        → Verdict s row password (try_account password row s)
    tried none found = (refl, refl, refl)
    tried (some a) found = elim (Bool-cases (is_locked s.now a)) [
      | inl e ↦ rw e (inl (e, refl, refl))
      | inr e ↦ rw e (
          checked (normalize s.library email) password s a found e
            (s.library.check_password password a.password) refl)
    ]
