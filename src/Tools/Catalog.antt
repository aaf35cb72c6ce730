-- ===== src/Tools/Catalog.antt =====
-- tools/catalog.py: the translation catalogs. A text is the list of its lines, which
-- `split("\n")` gives and `"\n".join` takes back.
pub mod Parts
pub mod Filling
pub mod Fuzzy
pub mod English
pub mod Rewriting
pub mod Stable
mod Tests
use Prim.Native.Char.{Char}
use Prim.Native.String.{String}
use Prim.Native.String.{◌++◌ as append}
use azm_crm.Prelude.{
  Bool, true, false, not, ◌&&◌, ◌||◌, List, [], ◌∷◌, ◌++◌, map, any, keep, if◌then◌else◌,
}
use azm_crm.Core.Text.{strip, is_empty, starts_with, contains, drop_chars, strip_quotes}
use azm_crm.Core.Lines.{split_lines, join_lines}

abbrev pub Block : Type 0
Block = List String

-- `line.strip()` is true.
unfoldable pub is_inked : String → Bool
unfolding strip
is_inked l = not (is_empty (strip l))

-- `block.strip()` is true.
abbrev pub is_written : Block → Bool
is_written b = any is_inked b

-- `.strip("\n")` of a text: empty lines go at both ends, and one is left of nothing.
unfoldable pub drop_empty : Block → Block
drop_empty [] = []
drop_empty (l ∷ ls) = let rest = drop_empty ls in if is_empty l then rest else l ∷ ls

abbrev pub drop_last : String → Block → Block
drop_last l [] = if is_empty l then [] else l ∷ []
drop_last l (m ∷ ms) = l ∷ m ∷ ms

unfoldable pub drop_empty_last : Block → Block
drop_empty_last [] = []
drop_empty_last (l ∷ ls) = drop_last l (drop_empty_last ls)

abbrev pub one_line : Block → Block
one_line [] = "" ∷ []
one_line (l ∷ ls) = l ∷ ls

unfoldable pub strip_newlines : Block → Block
unfolding drop_empty drop_empty_last
strip_newlines b = one_line (drop_empty_last (drop_empty b))

unfoldable pub starts_entry : String → Bool
unfolding starts_with
starts_entry l = starts_with "#" l || starts_with "msgid " l

unfoldable pub is_translation : String → Bool
unfolding starts_with
is_translation l = starts_with "msgstr" l

-- The loop of `_blocks`, with the entry that is being read.
abbrev pub is_some_line : Block → Bool
is_some_line [] = false
is_some_line (l ∷ ls) = true

abbrev pub last_block : Block → List Block
last_block [] = []
last_block (l ∷ ls) = strip_newlines (l ∷ ls) ∷ []

unfoldable pub split_entries : Block → Bool → List String → List Block
unfolding starts_entry is_translation strip_newlines
split_entries current seen [] = last_block current
split_entries current seen (l ∷ ls) =
    let ends = starts_entry l && (seen && is_some_line current) in
    let later =
      split_entries (if ends then l ∷ [] else current ++ l ∷ [])
        (is_translation l || (if ends then false else seen)) ls in
    if ends then strip_newlines current ∷ later else later

-- `_blocks`
unfoldable pub blocks : List String → List Block
unfolding split_entries is_inked
blocks text = keep is_written (split_entries [] false text)

-- `_write`
abbrev pub clean : Block → Block
clean b = keep is_inked b

unfoldable pub separated : List Block → List String
separated [] = "" ∷ "" ∷ []
separated (b ∷ []) = b ++ "" ∷ []
separated (b ∷ c ∷ bs) = b ++ "" ∷ separated (c ∷ bs)

unfoldable pub write : List Block → List String
unfolding separated is_inked
write bs = separated (map clean (keep is_written bs))

-- The text that a script leaves when it reads a catalog, changes its entries and writes it back.
unfoldable pub rewrite : (List Block → List Block) → String → String
unfolding split_lines join_lines
rewrite change text = join_lines (write (change (blocks (split_lines text))))
