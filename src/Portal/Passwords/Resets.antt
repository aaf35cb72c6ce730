-- ===== src/Portal/Passwords/Resets.antt =====
-- About `complete_reset` of apps/portal/services/passwords.py: what it needs, and what it ends.
use azm_crm.Prelude.{
  ℕ, String, Option, none, some, true, if◌then◌else◌, ◌≡◌, ◌≢◌, refl, sym, ap, ◌∙◌, arith,
  Bool-cases, inl, inr, ◌==◌, List, [], ◌∷◌, update_where, subst,
}
use azm_crm.Portal.Model.{
  Account, reset, Token, Site, account_of, may_use_the_portal, clear_failed_sign_ins,
}
use azm_crm.Portal.Tokens.{peek, spend, invalidate_all}
use azm_crm.Portal.Tokens.Lookup.{peek_alike, str_neq}
use azm_crm.Portal.Tokens.Single.{invalidated}
use azm_crm.Portal.Passwords.{
  Reset, done, rejected, no_good, complete_reset, change_password, reset_account, reset_with,
  with_password,
}
use azm_crm.Portal.Auth.{Session, session_fingerprint, customer_from_session}

-- How `complete_reset` comes out. It was done: the link was good, its account may use the portal, and
-- the policy accepts the password; the state is then that of the change. Or it was not, and nothing
-- is changed.
abbrev pub IsReset : String → String → Site → Reset × Site → Type 0
IsReset value new_password s (done b, s') =
    (t : Token) × (a : Account) × (peek value reset s ≡ some t)
    × (account_of t.account s.accounts ≡ some a)
    × (may_use_the_portal a ≡ true)
    × (s.library.is_acceptable new_password a.email ≡ true)
    × ((done b, s') ≡ change_password new_password t a s)
IsReset value new_password s (rejected, s') = s' ≡ s
IsReset value new_password s (no_good, s') = s' ≡ s

-- A reset is done only with a usable link whose account may use the portal and a password that
-- the policy accepts; a reset that is not done changes nothing, so the link survives a rejected
-- password.
pub complete_reset-IsReset :
    (value new_password : String) (s : Site)
    → IsReset value new_password s (complete_reset value new_password s)
unfolding complete_reset
complete_reset-IsReset value new_password s = with_token (peek value reset s) refl
  where
    with_account :
        (t : Token) (found : Option Account)
        → peek value reset s ≡ some t
        → account_of t.account s.accounts ≡ found
        → IsReset value new_password s (reset_account new_password t found s)
    with_account t none e k = refl
    with_account t (some a) e k = elim (Bool-cases (may_use_the_portal a)) [
      | inr n ↦ rw n refl
      | inl m ↦ elim (Bool-cases (s.library.is_acceptable new_password a.email)) [
        | inr n ↦ rw (m, n) refl
        | inl ok ↦ rw (m, ok) (t, a, e, k, m, ok, refl)
      ]
    ]

    with_token :
        (found : Option Token)
        → peek value reset s ≡ found
        → IsReset value new_password s (reset_with new_password found s)
    with_token none e = refl
    with_token (some t) e = with_account t (account_of t.account s.accounts) e refl

-- The account that is found by its number has that number.
account_of-pk :
    (pk : ℕ) (rows : List Account) (a : Account) → account_of pk rows ≡ some a → a.pk ≡ pk
account_of-pk pk [] a e = cc
account_of-pk pk (x ∷ rows) a e = ground (arith, account_of-pk pk rows a)

some_inj : {x y : Account} → some x ≡ some y → x ≡ y
some_inj h = ground arith

account_of-update :
    (pk : ℕ) (f : Account → Account) (rows : List Account) (a : Account)
    → ((x : Account) → (f x).pk ≡ x.pk)
    → account_of pk rows ≡ some a
    → account_of pk (update_where (λ x. x.pk == pk) f rows) ≡ some (f a)
account_of-update pk f [] a same e = cc
account_of-update pk f (x ∷ rows) a same e = elim (Bool-cases (x.pk == pk)) [
  | inl h ↦ rw h (picked (f x) _ (rw (same x) h) ∙ ap some (ap f (some_inj (rw h at e))))
  | inr h ↦ rw (h, h) (account_of-update pk f rows a same (rw h at e))
]
  where
    picked :
        (y : Account) (rest : Option Account)
        → (y.pk == pk) ≡ true
        → (if y.pk == pk then some y else rest) ≡ some y
    picked y rest h = rw h

-- The row of the account, once the change was made.
changed_row :
    (new_password : String) (t : Token) (a : Account) (s : Site)
    → account_of a.pk s.accounts ≡ some a
    → account_of a.pk (change_password new_password t a s).1.accounts
      ≡ some
          (clear_failed_sign_ins (with_password (s.library.make_password s.draws new_password) a))
unfolding clear_failed_sign_ins spend invalidate_all
changed_row new_password t a s e =
    account_of-update a.pk clear_failed_sign_ins _ _ (λ x. refl)
      (account_of-update a.pk (with_password _) s.accounts a (λ x. refl) e)

-- What a reset that was done leaves: the account's row is the account that was returned, it is not
-- locked, and its links for a reset were invalidated.
abbrev Settled : Site → Reset × Site → Type 0
Settled s (done b, s') =
    (account_of b.pk s'.accounts ≡ some b)
    × (b.locked_until ≡ none)
    × (s'.library ≡ s.library)
    × ((before : Site) × (s'.tokens ≡ (invalidate_all b.pk reset before).tokens)
        × (before.library ≡ s.library))
Settled s (rejected, s') = Unit
Settled s (no_good, s') = Unit

change_password-Settled :
    (new_password : String) (t : Token) (a : Account) (s : Site)
    → account_of a.pk s.accounts ≡ some a
    → Settled s (change_password new_password t a s)
unfolding clear_failed_sign_ins spend invalidate_all
change_password-Settled new_password t a s e =
    (changed_row new_password t a s e, refl, refl, (spend t s, refl, refl))

complete_reset-Settled :
    (value new_password : String) (s : Site) (r : Reset × Site)
    → IsReset value new_password s r
    → Settled s r
complete_reset-Settled value new_password s (done b, s') h = subst (Settled s) (sym h.6) (
    change_password-Settled new_password h.0 h.1 s (
      subst (λ k. account_of k s.accounts ≡ some h.1)
        (sym (account_of-pk (h.0).account s.accounts h.1 h.3)) h.3))
complete_reset-Settled value new_password s (rejected, s') h = tt
complete_reset-Settled value new_password s (no_good, s') h = tt

after_reset :
    (value new_password : String) (s s' : Site) (b : Account)
    → complete_reset value new_password s ≡ (done b, s')
    → Settled s (done b, s')
after_reset value new_password s s' b e =
    complete_reset-Settled value new_password s (done b, s')
      (subst (IsReset value new_password s) e (complete_reset-IsReset value new_password s))

-- After a reset that was done for an account, no link for a reset that can still be used, with
-- whatever value and at whatever moment, is that account's.
pub reset_burns_links :
    (value new_password other : String) (later : ℕ) (s s' : Site) (b : Account) (t : Token)
    → complete_reset value new_password s ≡ (done b, s')
    → peek other reset (record s' { now = later }) ≡ some t
    → t.account ≢ b.pk
reset_burns_links value new_password other later s s' b t e found =
    let left = after_reset value new_password s s' b e in
    let before : Site = left.3.0 in
    invalidated other reset b.pk later before t (
      sym (
        peek_alike other reset (record s' { now = later })
          (record (invalidate_all b.pk reset before) { now = later }) left.3.1
          (unfold invalidate_all in left.2 ∙ sym left.3.2) (unfold invalidate_all in refl))
      ∙ found)

-- After a reset that was done for an account, a session of that account is not served if its
-- fingerprint is not that of the new password.
pub reset_ends_sessions :
    (value new_password : String) (s s' : Site) (b : Account) (session : Session)
    → complete_reset value new_password s ≡ (done b, s')
    → session.customer ≡ some b.pk
    → session.fingerprint ≢ session_fingerprint s.library b
    → customer_from_session session s' ≡ none
unfolding customer_from_session
reset_ends_sessions value new_password s s' b session e who ne =
    let left = after_reset value new_password s s' b e in
    rw (who, left.0)
      (elim (Bool-cases (may_use_the_portal b)) [
        | inl m ↦ rw (m, left.2, str_neq session.fingerprint (session_fingerprint s.library b) ne)
        | inr m ↦ rw m
      ])
