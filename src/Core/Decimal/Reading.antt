-- ===== src/Core/Decimal/Reading.antt =====
-- What the digits of a number stand for, so that no two numbers are written alike.
use Prim.Native.Char.{code}
use Prim.Native.String.{String}
use Prim.Native.String.{◌++◌ as append}
use text.Mathlib.TextLemmas.{
  nil-append, cons-append, head-eq_of_cons-eq, tail-eq_of_cons-eq, cons-eq-cons,
}
use azm_crm.Prelude.{
  ℕ, zero, suc, ◌+◌, ◌-◌, ◌*◌, ◌/◌, ◌%◌, ◌<◌, ltb, ◌≡◌, ◌≢◌, refl, sym, ◌∙◌, ap, arith, Bool-cases,
  inl, inr,
}
use azm_crm.Core.Decimal.{digit, one_digit, digits, decimal, zeros, six_digits}

pub digit-code : (d : ℕ) → d < 10 → code (digit d) ≡ 48 + d
unfolding digit
digit-code zero h = refl
digit-code (suc zero) h = refl
digit-code (suc (suc zero)) h = refl
digit-code (suc (suc (suc zero))) h = refl
digit-code (suc (suc (suc (suc zero)))) h = refl
digit-code (suc (suc (suc (suc (suc zero))))) h = refl
digit-code (suc (suc (suc (suc (suc (suc zero)))))) h = refl
digit-code (suc (suc (suc (suc (suc (suc (suc zero))))))) h = refl
digit-code (suc (suc (suc (suc (suc (suc (suc (suc zero)))))))) h = refl
digit-code (suc (suc (suc (suc (suc (suc (suc (suc (suc zero))))))))) h = refl
digit-code (suc (suc (suc (suc (suc (suc (suc (suc (suc (suc n)))))))))) h = absurd (omega arith)

-- Read on after a number that was read.
read_on : ℕ → String → ℕ
read_on n String.[] = n
read_on n (String.◌∷◌ c s) = read_on (n * 10 + (code c - 48)) s

read_on-append : (n : ℕ) (s t : String) → read_on n (append s t) ≡ read_on (read_on n s) t
unfolding read_on
read_on-append n String.[] t = rw nil-append
read_on-append n (String.◌∷◌ c s) t = rw cons-append (read_on-append (n * 10 + (code c - 48)) s t)

read_on-one_digit : (n d : ℕ) → d < 10 → read_on n (one_digit d) ≡ n * 10 + d
unfolding read_on
read_on-one_digit n d h = omega (arith, digit-code d h)

read-digits : (fuel n : ℕ) → n < fuel → read_on 0 (digits fuel n) ≡ n
unfolding digits
read-digits zero n h = absurd (omega arith)
read-digits (suc fuel) n h = elim (Bool-cases (ltb n 10)) [
  | inl e ↦ rw e (read_on-one_digit 0 n (ground arith) ∙ omega arith)
  | inr e ↦
      rw (e, read_on-append, read-digits fuel (n / 10) (ground arith))
        (read_on-one_digit (n / 10) (n % 10) (omega arith) ∙ omega arith)
]

read-zeros : (k : ℕ) (s : String) → read_on 0 (append (zeros k) s) ≡ read_on 0 s
unfolding zeros read_on digit
read-zeros zero s = rw nil-append
read-zeros (suc k) s = rw cons-append (read-zeros k s)

read-decimal : (n : ℕ) → read_on 0 (decimal n) ≡ n
unfolding decimal
read-decimal n = read-digits (suc n) n (omega arith)

read-six_digits : (n : ℕ) → read_on 0 (six_digits n) ≡ n
unfolding six_digits
read-six_digits n = read-zeros _ (decimal n) ∙ read-decimal n

pub decimal_inj : (m n : ℕ) → decimal m ≡ decimal n → m ≡ n
decimal_inj m n e = sym (read-decimal m) ∙ ap (read_on 0) e ∙ read-decimal n

pub six_digits_inj : (m n : ℕ) → six_digits m ≡ six_digits n → m ≡ n
six_digits_inj m n e = sym (read-six_digits m) ∙ ap (read_on 0) e ∙ read-six_digits n

-- A text without the dash, whose code is 45.
abbrev pub NoDash : String → Type 0
NoDash String.[] = Unit
NoDash (String.◌∷◌ c s) = (code c ≢ 45) × NoDash s

NoDash-append : (s t : String) → NoDash s → NoDash t → NoDash (append s t)
NoDash-append String.[] t h k = rw nil-append k
NoDash-append (String.◌∷◌ c s) t h k = rw cons-append (h.0, NoDash-append s t h.1 k)

NoDash-one_digit : (d : ℕ) → d < 10 → NoDash (one_digit d)
NoDash-one_digit d h = (λ e. omega (arith, digit-code d h), tt)

NoDash-digits : (fuel n : ℕ) → NoDash (digits fuel n)
unfolding digits
NoDash-digits zero n = tt
NoDash-digits (suc fuel) n = elim (Bool-cases (ltb n 10)) [
  | inl e ↦ rw e (NoDash-one_digit n (ground arith))
  | inr e ↦
      rw e
        (NoDash-append _ _ (NoDash-digits fuel (n / 10)) (NoDash-one_digit (n % 10) (omega arith)))
]

pub NoDash-decimal : (n : ℕ) → NoDash (decimal n)
unfolding decimal
NoDash-decimal n = NoDash-digits (suc n) n

abbrev pub dash : String → String
dash t = String.◌∷◌ "-" t

-- Two texts are split alike at their first dash.
pub split_at_dash :
    (s t u v : String)
    → NoDash s
    → NoDash u
    → append s (dash t) ≡ append u (dash v)
    → (s ≡ u) × (t ≡ v)
split_at_dash String.[] t String.[] v h k e =
    (refl, tail-eq_of_cons-eq (sym (nil-append (dash t)) ∙ e ∙ nil-append (dash v)))
split_at_dash String.[] t (String.◌∷◌ d u) v h k e =
    let both = sym (nil-append (dash t)) ∙ e ∙ cons-append d u (dash v) in
    absurd (k.0 (sym (ap code (head-eq_of_cons-eq both))))
split_at_dash (String.◌∷◌ c s) t String.[] v h k e =
    let both = sym (cons-append c s (dash t)) ∙ e ∙ nil-append (dash v) in
    absurd (h.0 (ap code (head-eq_of_cons-eq both)))
split_at_dash (String.◌∷◌ c s) t (String.◌∷◌ d u) v h k e =
    let both = sym (cons-append c s (dash t)) ∙ e ∙ cons-append d u (dash v) in
    let rest = split_at_dash s t u v h.1 k.1 (tail-eq_of_cons-eq both) in
    (cons-eq-cons.1 (head-eq_of_cons-eq both, rest.0), rest.1)
