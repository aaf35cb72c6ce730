-- ===== src/Core/Text.antt =====
-- `str.strip` over texts: Python's white space, at both ends.
use Prim.Native.Char.{Char, code}
use Prim.Native.String.{String}
use azm_crm.Prelude.{ℕ, zero, suc, Bool, true, false, ◌&&◌, ◌||◌, if◌then◌else◌, leb, ◌==◌}

abbrev is_space_code : ℕ → Bool
is_space_code c =
    leb 9 c && leb c 13
    || leb 28 c && leb c 32
    || c == 133
    || c == 160
    || c == 5760
    || leb 8192 c && leb c 8202
    || c == 8232
    || c == 8233
    || c == 8239
    || c == 8287
    || c == 12288

unfoldable pub is_space : Char → Bool
is_space c = is_space_code (code c)

unfoldable pub strip_left : String → String
unfolding is_space
strip_left String.[] = String.[]
strip_left (String.◌∷◌ c s) = let rest = strip_left s in if is_space c then rest else String.◌∷◌ c s

abbrev pub is_empty : String → Bool
is_empty String.[] = true
is_empty (String.◌∷◌ c s) = false

unfoldable pub strip_right : String → String
unfolding is_space
strip_right String.[] = String.[]
strip_right (String.◌∷◌ c s) =
    let rest = strip_right s in if is_space c && is_empty rest then String.[] else String.◌∷◌ c rest

unfoldable pub strip : String → String
unfolding strip_left strip_right
strip s = strip_right (strip_left s)

-- `s.startswith(prefix)`, `part in s`, and `s[n:]`.
unfoldable pub starts_with : String → String → Bool
starts_with String.[] s = true
starts_with (String.◌∷◌ p ps) String.[] = false
starts_with (String.◌∷◌ p ps) (String.◌∷◌ c s) = code p == code c && starts_with ps s

unfoldable pub contains : String → String → Bool
unfolding starts_with
contains part String.[] = is_empty part
contains part (String.◌∷◌ c s) = starts_with part (String.◌∷◌ c s) || contains part s

unfoldable pub drop_chars : ℕ → String → String
drop_chars zero s = s
drop_chars (suc n) String.[] = String.[]
drop_chars (suc n) (String.◌∷◌ c s) = drop_chars n s

-- `s.strip('"')`
abbrev is_quote : Char → Bool
is_quote c = code c == 34

unfoldable pub unquote_left : String → String
unquote_left String.[] = String.[]
unquote_left (String.◌∷◌ c s) =
    let rest = unquote_left s in if is_quote c then rest else String.◌∷◌ c s

unfoldable pub unquote_right : String → String
unquote_right String.[] = String.[]
unquote_right (String.◌∷◌ c s) =
    let rest = unquote_right s in
    if is_quote c && is_empty rest then String.[] else String.◌∷◌ c rest

unfoldable pub strip_quotes : String → String
unfolding unquote_left unquote_right
strip_quotes s = unquote_right (unquote_left s)
