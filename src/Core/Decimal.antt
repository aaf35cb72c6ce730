-- ===== src/Core/Decimal.antt =====
-- `str` of a number, and the format `06d`.
pub mod Reading
use Prim.Native.Char.{Char}
use Prim.Native.String.{String, count}
use Prim.Native.String.{◌++◌ as append}
use azm_crm.Prelude.{ℕ, zero, suc, ◌-◌, ◌/◌, ◌%◌, if◌then◌else◌, ltb}

unfoldable pub digit : ℕ → Char
digit zero = "0"
digit (suc zero) = "1"
digit (suc (suc zero)) = "2"
digit (suc (suc (suc zero))) = "3"
digit (suc (suc (suc (suc zero)))) = "4"
digit (suc (suc (suc (suc (suc zero))))) = "5"
digit (suc (suc (suc (suc (suc (suc zero)))))) = "6"
digit (suc (suc (suc (suc (suc (suc (suc zero))))))) = "7"
digit (suc (suc (suc (suc (suc (suc (suc (suc zero)))))))) = "8"
digit (suc (suc (suc (suc (suc (suc (suc (suc (suc n))))))))) = "9"

abbrev pub one_digit : ℕ → String
one_digit n = String.◌∷◌ (digit n) String.[]

-- A number has no more digits than its successor counts.
unfoldable pub digits : ℕ → ℕ → String
digits zero n = ""
digits (suc fuel) n =
    let longer = append (digits fuel (n / 10)) (one_digit (n % 10)) in
    if ltb n 10 then one_digit n else longer

unfoldable pub decimal : ℕ → String
unfolding digits digit
decimal n = digits (suc n) n

unfoldable pub zeros : ℕ → String
zeros zero = ""
zeros (suc n) = String.◌∷◌ (digit 0) (zeros n)

-- `f"{n:06d}"`
unfoldable pub six_digits : ℕ → String
unfolding zeros decimal
six_digits n = append (zeros (6 - count (decimal n))) (decimal n)
