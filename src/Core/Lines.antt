-- ===== src/Core/Lines.antt =====
-- `split("\n")` and `"\n".join`: a text and its lines.
pub mod Laws
use Prim.Native.Char.{Char, code}
use Prim.Native.String.{String}
use Prim.Native.String.{◌++◌ as append}
use azm_crm.Prelude.{Bool, List, [], ◌∷◌, ◌==◌, if◌then◌else◌}

abbrev pub is_newline : Char → Bool
is_newline c = code c == 10

abbrev pub push_char : Char → List String → List String
push_char c [] = String.◌∷◌ c String.[] ∷ []
push_char c (l ∷ ls) = String.◌∷◌ c l ∷ ls

unfoldable pub split_lines : String → List String
split_lines String.[] = String.[] ∷ []
split_lines (String.◌∷◌ c s) =
    let rest = split_lines s in if is_newline c then String.[] ∷ rest else push_char c rest

unfoldable pub join_lines : List String → String
join_lines [] = String.[]
join_lines (l ∷ []) = l
join_lines (l ∷ m ∷ ls) = append l (String.◌∷◌ "\n" (join_lines (m ∷ ls)))
