-- ===== src/Core/Lines/Laws.antt =====
-- About the lines of a text: splitting and joining undo each other.
use Prim.Native.Char.{Char}
use Prim.Native.String.{String}
use Prim.Native.String.{◌++◌ as append}
use text.Mathlib.TextLemmas.{nil-append, cons-append}
use azm_crm.Prelude.{false, List, [], ◌∷◌, ◌≡◌, refl, ap, ◌∙◌, Bool-cases, inl, inr, All}
use azm_crm.Core.Lines.{is_newline, push_char, split_lines, join_lines}

-- A line holds no newline.
abbrev pub IsLine : String → Type 0
IsLine String.[] = Unit
IsLine (String.◌∷◌ c s) = (is_newline c ≡ false) × IsLine s

All-push_char :
    (c : Char) (ls : List String)
    → is_newline c ≡ false
    → All IsLine ls
    → All IsLine (push_char c ls)
All-push_char c [] e h = ((e, tt), tt)
All-push_char c (l ∷ ls) e h = ((e, h.0), h.1)

pub split_lines-IsLine : (s : String) → All IsLine (split_lines s)
unfolding split_lines
split_lines-IsLine String.[] = (tt, tt)
split_lines-IsLine (String.◌∷◌ c s) = elim (Bool-cases (is_newline c)) [
  | inl e ↦ rw e (tt, split_lines-IsLine s)
  | inr e ↦ rw e (All-push_char c (split_lines s) e (split_lines-IsLine s))
]

-- A text of one line, and one with a line before others.
pub split_lines-line : (l : String) → IsLine l → split_lines l ≡ l ∷ []
unfolding split_lines
split_lines-line String.[] h = refl
split_lines-line (String.◌∷◌ c s) h = rw (h.0, split_lines-line s h.1) refl

pub split_lines-append :
    (l rest : String)
    → IsLine l
    → split_lines (append l (String.◌∷◌ "\n" rest)) ≡ l ∷ split_lines rest
unfolding split_lines
split_lines-append String.[] rest h = rw nil-append refl
split_lines-append (String.◌∷◌ c s) rest h =
    rw (cons-append, h.0, split_lines-append s rest h.1) refl

pub split_lines-join_lines :
    (l : String) (ls : List String)
    → All IsLine (l ∷ ls)
    → split_lines (join_lines (l ∷ ls)) ≡ l ∷ ls
unfolding join_lines
split_lines-join_lines l [] h = split_lines-line l h.0
split_lines-join_lines l (m ∷ ls) h =
    split_lines-append l (join_lines (m ∷ ls)) h.0 ∙ ap (◌∷◌ l) (split_lines-join_lines m ls h.1)
