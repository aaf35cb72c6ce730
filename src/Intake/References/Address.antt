-- ===== src/Intake/References/Address.antt =====
-- About `_reply_to_address` of apps/messaging/tasks.py and `_by_reply_to_token` of
-- apps/messaging/services/inbound.py: a reply comes back to the ticket that it answers.

use Prim.Native.String.{String, count}
use Prim.Native.String.{◌++◌ as append}
use text.Mathlib.TextLemmas.{nil-append, cons-append, append-nil, append_assoc, length-cons}
use azm_crm.Prelude.{
  ℕ, zero, suc, ◌+◌, ◌*◌, ◌/◌, ◌%◌, ◌<◌, ◌≤◌, some, true, ltb, ◌≡◌, refl, ap, ◌∙◌, arith,
  Bool-cases, inl, inr,
}
use azm_crm.Core.Decimal.{digit, one_digit, digits, decimal, zeros, six_digits}
use azm_crm.Core.Sequence.{format}
use azm_crm.Intake.Office.{Letters}
use azm_crm.Intake.References.{
  Matched, with_char, match_digits, match_char, match_reference, search_plus_address,
  reply_to_address,
}

-- The digits from 0 to 9 are digits.
abbrev pub KnowsDigits : Letters → Type 0
KnowsDigits l = (d : ℕ) → d < 10 → l.is_decimal (digit d) ≡ true

module _ (l : Letters) where
  -- As many digits as that.
  abbrev Digits : ℕ → String → Type 0
  Digits zero String.[] = Unit
  Digits zero (String.◌∷◌ c s) = ⊥
  Digits (suc n) String.[] = ⊥
  Digits (suc n) (String.◌∷◌ c s) = (l.is_decimal c ≡ true) × Digits n s

  module _ (knows : KnowsDigits l) where
    Digits-one : (d : ℕ) → d < 10 → Digits 1 (one_digit d)
    Digits-one d h = (knows d h, tt)

    Digits-append_one :
        (n d : ℕ) (s : String) → d < 10 → Digits n s → Digits (suc n) (append s (one_digit d))
    Digits-append_one zero d String.[] h k = rw nil-append (Digits-one d h)
    Digits-append_one zero d (String.◌∷◌ c s) h k = elim k [ ]
    Digits-append_one (suc n) d String.[] h k = elim k [ ]
    Digits-append_one (suc n) d (String.◌∷◌ c s) h k =
        rw cons-append (k.0, Digits-append_one n d s h k.1)

    -- The powers of ten; the least number with one digit is zero.
    abbrev tens : ℕ → ℕ
    tens zero = 1
    tens (suc k) = 10 * tens k

    abbrev least : ℕ → ℕ
    least zero = 0
    least (suc k) = tens (suc k)

    Digits-digits :
        (k fuel n : ℕ) → n < fuel → least k ≤ n → n < tens (suc k) → Digits (suc k) (digits fuel n)
    unfolding digits
    Digits-digits k zero n f a b = absurd (omega arith)
    Digits-digits zero (suc fuel) n f a b = elim (Bool-cases (ltb n 10)) [
      | inl e ↦ rw e (Digits-one n (omega arith))
      | inr e ↦ absurd (ground arith)
    ]
    Digits-digits (suc zero) (suc fuel) n f a b = elim (Bool-cases (ltb n 10)) [
      | inl e ↦ absurd (ground arith)
      | inr e ↦ rw e (
          Digits-append_one 1 (n % 10) (digits fuel (n / 10)) (omega arith)
            (Digits-digits zero fuel (n / 10) (ground arith) (omega arith) (omega arith)))
    ]
    Digits-digits (suc (suc k)) (suc fuel) n f a b = elim (Bool-cases (ltb n 10)) [
      | inl e ↦ absurd (few n (tens k) e a (tens-pos k))
      | inr e ↦ rw e (
          Digits-append_one (suc (suc k)) (n % 10) (digits fuel (n / 10)) (omega arith)
            (Digits-digits (suc k) fuel (n / 10) (ground arith) (omega arith) (omega arith)))
    ]
      where
        tens-pos : (k : ℕ) → 0 < tens k
        tens-pos zero = omega arith
        tens-pos (suc k) = omega (arith, tens-pos k)

        few : (n t : ℕ) → ltb n 10 ≡ true → 10 * (10 * t) ≤ n → 0 < t → ⊥
        few n t e a p = ground arith

    count-Digits : (n : ℕ) (s : String) → Digits n s → count s ≡ n
    count-Digits zero String.[] h = refl
    count-Digits zero (String.◌∷◌ c s) h = elim h [ ]
    count-Digits (suc n) String.[] h = elim h [ ]
    count-Digits (suc n) (String.◌∷◌ c s) h = length-cons c s ∙ ap suc (count-Digits n s h.1)

    Digits-zeros : (j n m : ℕ) (s : String) → m ≡ j + n → Digits n s → Digits m (append (zeros j) s)
    unfolding zeros
    Digits-zeros zero n m s e h = let same : m ≡ n = omega arith in rw (nil-append, same) h
    Digits-zeros (suc j) n zero s e h = absurd (omega arith)
    Digits-zeros (suc j) n (suc m) s e h =
        rw cons-append (knows 0 (omega arith), Digits-zeros j n m s (omega arith) h)

    Digits-six : (k v : ℕ) → k < 6 → least k ≤ v → v < tens (suc k) → Digits 6 (six_digits v)
    unfolding six_digits decimal
    Digits-six k v f a b =
        let d = Digits-digits k (suc v) v (omega arith) a b in
        Digits-zeros _ (suc k) 6 _ (omega (arith, count-Digits (suc k) (digits (suc v) v) d)) d

    Digits-six_digits : (v : ℕ) → v < 1000000 → Digits 6 (six_digits v)
    Digits-six_digits v h = elim (Bool-cases (ltb v 10)) [
      | inl a ↦ Digits-six 0 v (omega arith) (omega arith) (ground arith)
      | inr a ↦ elim (Bool-cases (ltb v 100)) [
        | inl b ↦ Digits-six 1 v (omega arith) (ground arith) (ground arith)
        | inr b ↦ elim (Bool-cases (ltb v 1000)) [
          | inl c ↦ Digits-six 2 v (omega arith) (ground arith) (ground arith)
          | inr c ↦ elim (Bool-cases (ltb v 10000)) [
            | inl d ↦ Digits-six 3 v (omega arith) (ground arith) (ground arith)
            | inr d ↦ elim (Bool-cases (ltb v 100000)) [
              | inl e ↦ Digits-six 4 v (omega arith) (ground arith) (ground arith)
              | inr e ↦ Digits-six 5 v (omega arith) (ground arith) (omega arith)
            ]
          ]
        ]
      ]
    ]

    Digits-decimal : (y : ℕ) → 1000 ≤ y → y < 10000 → Digits 4 (decimal y)
    unfolding decimal
    Digits-decimal y a b = Digits-digits 3 (suc y) y (omega arith) a b

  -- What was matched so far stands before what the rest matches.
  abbrev prepend : String → Matched → Matched
  prepend String.[] m = m
  prepend (String.◌∷◌ c s) m = with_char c (prepend s m)

  prepend-some : (s a r : String) → prepend s (some (a, r)) ≡ some (append s a, r)
  prepend-some String.[] a r = rw nil-append
  prepend-some (String.◌∷◌ c s) a r = rw (prepend-some s a r, cons-append)

  match_digits-Digits :
      (n : ℕ) (k : String → Matched) (s rest : String)
      → Digits n s
      → match_digits l n k (append s rest) ≡ prepend s (k rest)
  unfolding match_digits
  match_digits-Digits zero k String.[] rest h = rw nil-append
  match_digits-Digits zero k (String.◌∷◌ c s) rest h = elim h [ ]
  match_digits-Digits (suc n) k String.[] rest h = elim h [ ]
  match_digits-Digits (suc n) k (String.◌∷◌ c s) rest h =
      rw (cons-append, h.0) (ap (with_char c) (match_digits-Digits n k s rest h.1))

  append-azm : (x : String) → append "AZM" x ≡ String.◌∷◌ "A" (String.◌∷◌ "Z" (String.◌∷◌ "M" x))
  append-azm x =
      cons-append "A" "ZM" x
      ∙ ap (String.◌∷◌ "A") (
          cons-append "Z" "M" x
          ∙ ap (String.◌∷◌ "Z") (cons-append "M" "" x ∙ ap (String.◌∷◌ "M") (nil-append x)))

  -- A reference matches, whatever follows it.
  match_reference-format :
      (y v : ℕ) (rest : String)
      → Digits 4 (decimal y)
      → Digits 6 (six_digits v)
      → match_reference l (append (format "AZM" y v) rest) ≡ some (format "AZM" y v, rest)
  unfolding format match_reference match_char
  match_reference-format y v rest h k =
      rw
        (
          append-azm,
          cons-append,
          cons-append,
          cons-append,
          cons-append,
          append_assoc,
          cons-append,
          match_digits-Digits 4 _ (decimal y) _ h,
          match_digits-Digits 6 _ (six_digits v) rest k,
        )
        (rw (prepend-some, prepend-some, append-nil))

  append-support :
      (x : String)
      → append "support" x
        ≡ String.◌∷◌ "s" (
            String.◌∷◌ "u" (
              String.◌∷◌ "p" (String.◌∷◌ "p" (String.◌∷◌ "o" (String.◌∷◌ "r" (String.◌∷◌ "t" x))))))
  append-support x =
      cons-append "s" "upport" x
      ∙ ap (String.◌∷◌ "s") (
          cons-append "u" "pport" x
          ∙ ap (String.◌∷◌ "u") (
              cons-append "p" "port" x
              ∙ ap (String.◌∷◌ "p") (
                  cons-append "p" "ort" x
                  ∙ ap (String.◌∷◌ "p") (
                      cons-append "o" "rt" x
                      ∙ ap (String.◌∷◌ "o") (
                          cons-append "r" "t" x
                          ∙ ap (String.◌∷◌ "r")
                              (cons-append "t" "" x ∙ ap (String.◌∷◌ "t") (nil-append x)))))))

  -- The reference is found again in the address that a reply goes to.
  pub search_plus_address-reply_to_address :
      (y v : ℕ) (domain : String)
      → KnowsDigits l
      → 1000 ≤ y
      → y < 10000
      → v < 1000000
      → search_plus_address l (reply_to_address (format "AZM" y v) domain) ≡ some (format "AZM" y v)
  unfolding search_plus_address reply_to_address
  search_plus_address-reply_to_address y v domain knows a b c = rw (
    append-support,
    match_reference-format y v (String.◌∷◌ "@" domain) (Digits-decimal knows y a b)
        (Digits-six_digits knows v c),
  )
