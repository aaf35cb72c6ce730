-- ===== src/Core/Logging/Redaction.antt =====
-- About apps/core/logging.py: what the filter hides, and what it does not.
use Prim.Native.Char.{Char, code}
use Prim.Native.String.{String, count}
use Prim.Native.String.{◌++◌ as append}
use text.Mathlib.TextLemmas.{nil-append, append_assoc, cons-append, length-cons}
use azm_crm.Prelude.{
  ℕ, suc, ◌-◌, none, some, true, false, ◌||◌, ◌&&◌, ◌==◌, leb, ◌≡◌, refl, sym, ap, ◌∙◌, arith,
  Option-cases, inl, inr,
}
use azm_crm.Core.Logging.{
  string, Args, filter, redacted, match_word, match_key, is_sensitive, sub_from, redact_line,
}

-- A text with no key in it stays as it is.
sub_from-plain :
    (fold : Char → Char) (s : String) → is_sensitive fold s ≡ false → sub_from fold 0 s ≡ s
unfolding is_sensitive sub_from
sub_from-plain fold String.[] h = refl
sub_from-plain fold (String.◌∷◌ c s) h = elim (Option-cases (match_key fold (String.◌∷◌ c s))) [
  | inl e ↦ rw e (ap (String.◌∷◌ c) (sub_from-plain fold s (rw e at h)))
  | inr (n, e) ↦ absurd (cc (rw e at h))
]

-- The letters that a key is written with are their own, and so is the sign between a key and a
-- value.
abbrev pub KeepsLower : (Char → Char) → Type 0
KeepsLower fold =
    (c : Char) → ((leb 97 (code c) && leb (code c) 122) || code c == 61) ≡ true → fold c ≡ c

sub_from-skip :
    (fold : Char → Char) (s rest : String)
    → sub_from fold (count s) (append s rest) ≡ sub_from fold 0 rest
unfolding sub_from
sub_from-skip fold String.[] rest = rw nil-append refl
sub_from-skip fold (String.◌∷◌ c s) rest = rw (length-cons, cons-append) (sub_from-skip fold s rest)

sub_from-match :
    (fold : Char → Char) (c : Char) (s : String) (n : ℕ)
    → match_key fold (String.◌∷◌ c s) ≡ some (suc n)
    → sub_from fold 0 (String.◌∷◌ c s) ≡ append redacted (sub_from fold n s)
unfolding sub_from
sub_from-match fold c s n e = rw e (ap (λ k. append redacted (sub_from fold k s)) one_less)
  where
    one_less : suc n - 1 ≡ n
    one_less = omega arith

module _ (fold : Char → Char) (keeps : KeepsLower fold) (value : String) where
  abbrev rest : String
  rest = String.◌∷◌ "=" value

  sign : append "=" value ≡ rest
  sign = rw (cons-append, nil-append) refl

  match_key-password : match_key fold (String.◌∷◌ "p" (append "assword" rest)) ≡ some 8
  unfolding match_key match_word
  match_key-password =
      rw
        (
          cons-append,
          cons-append,
          cons-append,
          cons-append,
          cons-append,
          cons-append,
          cons-append,
          nil-append,
          keeps "p" refl,
          keeps "a" refl,
          keeps "s" refl,
          keeps "w" refl,
          keeps "o" refl,
          keeps "r" refl,
          keeps "d" refl,
        )
        refl

  -- No key begins with the sign.
  match_key-sign : match_key fold rest ≡ none
  unfolding match_key match_word
  match_key-sign = rw (keeps "=" refl) refl

  plain_rest : is_sensitive fold value ≡ false → is_sensitive fold rest ≡ false
  unfolding is_sensitive
  plain_rest plain = rw (match_key-sign, plain) refl

  split : append "password=" value ≡ String.◌∷◌ "p" (append "assword" rest)
  split = append_assoc "password" "=" value ∙ ap (append "password") sign ∙ first_letter
    where
      first_letter : append "password" rest ≡ String.◌∷◌ "p" (append "assword" rest)
      first_letter = rw cons-append refl

  redact_line-password :
      is_sensitive fold value ≡ false
      → redact_line fold (append "password=" value) ≡ append "[REDACTED]=" value
  unfolding redact_line
  redact_line-password plain =
      ap (sub_from fold 0) split
      ∙ sub_from-match fold "p" (append "assword" rest) 7 match_key-password
      ∙ ap (append redacted)
          (sub_from-skip fold "assword" rest ∙ sub_from-plain fold rest (plain_rest plain))
      ∙ ap (append redacted) (sym sign)
      ∙ sym (append_assoc redacted "=" value)

  is_sensitive-password : is_sensitive fold (append "password=" value) ≡ true
  unfolding is_sensitive
  is_sensitive-password = rw (split, match_key-password) refl

  -- When the letters `a` to `z` and the sign `=` are their own in the eyes of `re.IGNORECASE`,
  -- and a value has no key word in it, the filter lets a record with the message `password=` and
  -- the value pass with the key word replaced and the value as it was, whatever the record's
  -- arguments.
  pub filter-password :
      (args : Args)
      → is_sensitive fold value ≡ false
      → (filter fold (record { msg = string (append "password=" value); args = args })).msg
        ≡ string (append "[REDACTED]=" value)
  unfolding filter
  filter-password args plain = rw is_sensitive-password (ap string (redact_line-password plain))
