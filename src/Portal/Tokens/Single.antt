-- ===== src/Portal/Tokens/Single.antt =====
-- About apps/portal/services/tokens.py: links that are issued, spent and invalidated.
use azm_crm.Prelude.{
  ℕ, ◌+◌, ◌<◌, String, none, some, true, false, List, [], ◌∷◌, update_where, ◌≡◌, ◌≢◌, refl, ◌∙◌,
  ap, arith, Bool-cases, Option-cases, inl, inr, ==_refl,
}
use azm_crm.Core.Text.{is_empty}
use text.Mathlib.TextPositions.{eq_refl}
use azm_crm.Portal.Model.{Account, Purpose, Token, Site}
use azm_crm.Portal.Tokens.{
  fingerprint, matches, find_token, peek, stamp_used, spend, consume, is_outstanding,
  invalidate_all, issue, lifetime,
}
use azm_crm.Portal.Tokens.Lookup.{
  AreDistinct, purpose_eq_refl, matches_lem, some_inj, spent_row, gone, peek_lem, peek_gone,
}

-- When the links in the table have distinct fingerprints, a link that was consumed with success
-- is refused from then on, at whatever moment and for whichever purpose.
pub consume_once :
    (value : String) (p q : Purpose) (later : ℕ) (s : Site) (t : Token)
    → AreDistinct s.tokens
    → (consume value p s).0 ≡ some t
    → (consume value q (record (consume value p s).1 { now = later })).0 ≡ none
unfolding consume spend
consume_once value p q later s t d e = elim (Option-cases (peek value p s)) [
  | inl n ↦ cc (rw n at e)
  | inr (x, n) ↦
      let found = (peek_lem value p s x n).1 in
      let spent : Site = record (spend x s) { now = later } in
      rw (
        n,
        peek_gone value q spent (gone (fingerprint s.library value) p q s.now s.tokens x d found),
      )
]

no_more :
    (hash : String) (p : Purpose) (a now : ℕ) (rows : List Token) (t : Token)
    → find_token hash p (update_where (is_outstanding a p) (stamp_used now) rows) ≡ some t
    → t.account ≢ a
no_more hash p a now [] t e k = cc
no_more hash p a now (r ∷ rows) t e k = elim (Bool-cases (is_outstanding a p r)) [
  | inl o ↦ no_more hash p a now rows t (rw (o, spent_row hash p now r) at e) k
  | inr o ↦ elim (Bool-cases (matches hash p r)) [
    | inr m ↦ no_more hash p a now rows t (rw (o, m) at e) k
    | inl m ↦
        let of_r = matches_lem hash p r m in
        let same = some_inj (rw (o, m) at e) in
        cc (o, outstanding a p r (ap (λ x. x.account) same ∙ k) of_r.1 of_r.2)
  ]
]
  where
    outstanding :
        (b : ℕ) (q : Purpose) (x : Token)
        → x.account ≡ b
        → x.purpose ≡ q
        → x.used_at ≡ none
        → is_outstanding b q x ≡ true
    outstanding b q x i j u = rw (i, j, u, ==_refl b, purpose_eq_refl q)

-- Once the links of one purpose were invalidated for an account, none of them is found.
pub invalidated :
    (value : String) (p : Purpose) (a later : ℕ) (s : Site) (t : Token)
    → peek value p (record (invalidate_all a p s) { now = later }) ≡ some t
    → t.account ≢ a
unfolding invalidate_all
invalidated value p a later s t e =
    no_more (fingerprint s.library value) p a s.now s.tokens t
      (peek_lem value p (record (invalidate_all a p s) { now = later }) t e).1

-- The value that `issue` gives, when it is not empty, is found by `peek` for the same purpose at
-- every moment before the link's lifetime is over, and the link is the account's and expires
-- then.
pub peek-issue :
    (a : Account) (p : Purpose) (s : Site) (later : ℕ)
    → is_empty (issue a p s).0 ≡ false
    → later < s.now + lifetime s.settings p
    → (t : Token) × (peek (issue a p s).0 p (record (issue a p s).1 { now = later }) ≡ some t)
      × (t.account ≡ a.pk)
      × (t.expires_at ≡ s.now + lifetime s.settings p)
unfolding issue peek
peek-issue a p s later full soon = (
  record {
    pk = s.next_pk;
    account = a.pk;
    purpose = p;
    value_hash = fingerprint s.library (s.library.token_urlsafe s.draws);
    expires_at = s.now + lifetime s.settings p;
    used_at = none;
  },
  rw (full, eq_refl (fingerprint s.library (s.library.token_urlsafe s.draws)), purpose_eq_refl p)
      (ground arith),
  refl,
  refl,
)
