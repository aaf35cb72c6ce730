-- ===== src/Tools/Catalog/Tests.antt =====
-- A catalog whose first entry is glued to its header.
use Prim.Native.Char.{Char, code}
use azm_crm.Tools.Catalog.English.{is_quoted, from_msgid, copy_source}
use azm_crm.Tools.Catalog.English.Sources.{copy_source_lem}
use azm_crm.Prelude.{String, some, true, Bool, ◌&&◌, List, [], ◌∷◌, ◌≡◌, refl, map, leb}
use azm_crm.Core.Lines.{split_lines, join_lines}
use azm_crm.Core.Text.{strip, strip_left, strip_right, is_space, drop_chars, strip_quotes}
use azm_crm.Tools.Catalog.{blocks, clean, rewrite}
use azm_crm.Tools.Catalog.Parts.{string_parts}
use azm_crm.Tools.Catalog.Stable.{rewrite-Stable}
use azm_crm.Tools.Catalog.Rewriting.{concat}
use azm_crm.Tools.Catalog.Fuzzy.{clear_fuzzy_file}
use azm_crm.Tools.Catalog.Fuzzy.Cleared.{stays, clear_fuzzy_file_lem}
use azm_crm.Tools.Catalog.Filling.{Translations, single, before_translation, fill_file}
use azm_crm.Tools.Catalog.Filling.Reviewed.{FileFilled, fill_file-FileFilled}

abbrev lines : List String
lines =
    "msgid \"\"" ∷ "msgstr \"\"" ∷ "\"Project-Id-Version: azm\"" ∷ "#, fuzzy" ∷ "msgid \"Online\""
    ∷ "msgstr \"\"" ∷ []

two_entries :
    blocks lines
    ≡ ("msgid \"\"" ∷ "msgstr \"\"" ∷ "\"Project-Id-Version: azm\"" ∷ [])
      ∷ ("#, fuzzy" ∷ "msgid \"Online\"" ∷ "msgstr \"\"" ∷ [])
      ∷ []
unfolding blocks
two_entries = refl

wrapped_msgid :
    string_parts ("msgid \"\"" ∷ "\"On\"" ∷ "\"line\"" ∷ "msgstr \"\"" ∷ []) "msgid " ≡ "Online"
unfolding string_parts strip strip_left strip_right is_space strip_quotes drop_chars
wrapped_msgid = refl

abbrev file : String
file = join_lines lines

abbrev is_letter : Char → Bool
is_letter c = leb 97 (code c) && leb (code c) 122

abbrev reviewed : Translations
reviewed = ("Online", single "en ligne") ∷ []

rewrite-Stable_example :
    (clean (split_lines (rewrite (λ bs. bs) file)) ≡ clean (split_lines file))
    × (map clean (blocks (split_lines (rewrite (λ bs. bs) file)))
        ≡ map clean (blocks (split_lines file)))
    × (rewrite (λ bs. bs) (rewrite (λ bs. bs) file) ≡ rewrite (λ bs. bs) file)
rewrite-Stable_example = rewrite-Stable file

fill_file-FileFilled_example : FileFilled reviewed file (fill_file reviewed file)
fill_file-FileFilled_example = fill_file-FileFilled reviewed file

clear_fuzzy_file_lem_example :
    clean (split_lines (clear_fuzzy_file is_letter file))
    ≡ concat (map (stays is_letter) (blocks (split_lines file)))
clear_fuzzy_file_lem_example = clear_fuzzy_file_lem is_letter file

abbrev wrapped : List String
wrapped = "msgid \"\"" ∷ "\"On\"" ∷ "msgstr \"\"" ∷ []

above : before_translation wrapped ≡ some ("msgid \"\"" ∷ "\"On\"" ∷ [])
unfolding before_translation
above = refl

found : from_msgid ("msgid \"\"" ∷ "\"On\"" ∷ []) ≡ some ("msgid \"\"", "\"On\"" ∷ [])
unfolding from_msgid
found = refl

quoted : is_quoted "\"On\"" ≡ true
unfolding is_quoted
quoted = refl

copy_source_lem_example :
    string_parts (copy_source wrapped) "msgstr " ≡ string_parts (copy_source wrapped) "msgid "
copy_source_lem_example =
    copy_source_lem wrapped ("msgid \"\"" ∷ "\"On\"" ∷ []) ("\"On\"" ∷ []) "msgid \"\"" above found
      (quoted, tt)
