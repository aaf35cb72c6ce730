-- ===== src/Tools/Catalog/English.antt =====
-- tools/catalog.py, `sync_english`: in the source language an entry's translation is its own
-- text. `re.sub` over the lines of plural forms is a parameter.
pub mod Sources
use Prim.Native.Char.{Char}
use Prim.Native.String.{String}
use Prim.Native.String.{◌++◌ as append}
use azm_crm.Prelude.{
  ℕ, Option, none, some, Bool, true, false, List, [], ◌∷◌, ◌++◌, any, keep, if◌then◌else◌,
}
use azm_crm.Core.Text.{starts_with, drop_chars}
use azm_crm.Core.Lines.{split_lines, join_lines}
use azm_crm.Tools.Catalog.{Block, blocks, write}
use azm_crm.Tools.Catalog.Parts.{is_header, string_parts}
use azm_crm.Tools.Catalog.Filling.{before_translation}
use azm_crm.Tools.Catalog.Fuzzy.{unmarked}

unfoldable pub is_msgid : String → Bool
unfolding starts_with
is_msgid l = starts_with "msgid " l

unfoldable pub is_quoted : String → Bool
unfolding starts_with
is_quoted l = starts_with "\"" l

-- `lines[msgid_at:]`, if there is such a line.
unfoldable pub from_msgid : Block → Option (String × Block)
unfolding is_msgid
from_msgid [] = none
from_msgid (l ∷ ls) = let later = from_msgid ls in if is_msgid l then some (l, ls) else later

abbrev pub source_lines : String × Block → Block
source_lines (l, between) = append "msgstr " (drop_chars 6 l) ∷ keep is_quoted between

-- The first `msgid`, and the lines between it and the translation: none where it comes later.
abbrev pub source_of : Option (String × Block) → Option (String × Block) → Option (String × Block)
source_of (some found) anywhere = some found
source_of none none = none
source_of none (some (l, later)) = some (l, [])

abbrev pub copied : Block → Block → Option (String × Block) → Block
copied b head none = b
copied b head (some found) = head ++ source_lines found

abbrev pub copy_above : Block → Option Block → Block
copy_above b none = b
copy_above b (some head) = copied b head (source_of (from_msgid head) (from_msgid b))

-- The entry with one form.
unfoldable pub copy_source : Block → Block
unfolding before_translation from_msgid is_quoted
copy_source b = copy_above b (before_translation b)

unfoldable pub is_plural_source : String → Bool
unfolding starts_with
is_plural_source l = starts_with "msgid_plural" l

-- `sub n s lines` is `re.sub(r'msgstr\[n\] ".*"', f'msgstr[n] "{s}"', ...)`, which raises on a
-- template that it cannot read.
module _ (is_word : Char → Bool) (sub : ℕ → String → Block → Option Block) where
  abbrev sub_twice : Option Block → String → Option Block
  sub_twice none plural = none
  sub_twice (some b) plural = sub 1 plural b

  unfoldable pub sync_forms : Block → Option Block
  unfolding string_parts
  sync_forms b = sub_twice (sub 0 (string_parts b "msgid ") b) (string_parts b "msgid_plural ")

  abbrev sync_unmarked : Block → Option Block
  sync_unmarked b = if any is_plural_source b then sync_forms b else some (copy_source b)

  unfoldable pub sync_block : Block → Option Block
  unfolding is_header unmarked sync_forms copy_source is_plural_source
  sync_block b = if is_header b then some b else sync_unmarked (unmarked is_word b)

  abbrev with_block : Option Block → Option (List Block) → Option (List Block)
  with_block none later = none
  with_block (some b) none = none
  with_block (some b) (some bs) = some (b ∷ bs)

  unfoldable pub sync_blocks : List Block → Option (List Block)
  unfolding sync_block
  sync_blocks [] = some []
  sync_blocks (b ∷ bs) = with_block (sync_block b) (sync_blocks bs)

  abbrev synced_text : Option (List Block) → Option String
  synced_text none = none
  synced_text (some bs) = some (join_lines (write bs))

  -- `_sync_english_file`: the text that is written, if nothing is raised.
  unfoldable pub sync_english_file : String → Option String
  unfolding sync_blocks
  sync_english_file file = synced_text (sync_blocks (blocks (split_lines file)))
