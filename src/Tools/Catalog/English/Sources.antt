-- ===== src/Tools/Catalog/English/Sources.antt =====
-- About `sync_english` of tools/catalog.py: an entry's translation becomes its own text.
use Prim.Native.Char.{Char, code}
use Prim.Native.String.{String, count}
use Prim.Native.String.{◌++◌ as append}
use text.Mathlib.TextLemmas.{nil-append, cons-append, length-cons}
use mathlib.Core.List.{append-nil, append_assoc}
use azm_crm.Prelude.{
  Option, none, some, true, false, List, [], ◌∷◌, ◌++◌, keep, map, ◌≡◌, refl, sym, ap, ◌∙◌, subst,
  arith, ◌==◌, Bool-cases, inl, inr, All,
}
use azm_crm.Core.Text.{starts_with, drop_chars}
use azm_crm.Tools.Catalog.{Block, is_translation}
use azm_crm.Tools.Catalog.Parts.{unquoted, collect, joined, string_parts}
use azm_crm.Tools.Catalog.Filling.Forms.{starts_with-shorter, starts_with-append}
use azm_crm.Tools.Catalog.Filling.{before_translation, with_line}
use azm_crm.Tools.Catalog.English.{is_msgid, is_quoted, from_msgid, copy_source}

-- A quoted line begins with no keyword.
quoted_begins :
    (p : Char) (ps l : String)
    → (code p == 34) ≡ false
    → is_quoted l ≡ true
    → starts_with (String.◌∷◌ p ps) l ≡ false
unfolding is_quoted starts_with
quoted_begins p ps String.[] e h = refl
quoted_begins p ps (String.◌∷◌ c s) e h = ground (arith)

abbrev pub IsQuoted : String → Type 0
IsQuoted l = is_quoted l ≡ true

abbrev Begins : String → String → Type 0
Begins keyword l = starts_with keyword l ≡ false

module _ (keyword : String) where
  collect_skip :
      (ls rest : Block)
      → All (Begins keyword) ls
      → collect keyword [] false (ls ++ rest) ≡ collect keyword [] false rest
  unfolding collect
  collect_skip [] rest h = refl
  collect_skip (l ∷ ls) rest h = rw h.0 (collect_skip ls rest h.1)

  collect_quoted :
      (ls rest : Block) (parts : List String)
      → All (Begins keyword) ls
      → All IsQuoted ls
      → collect keyword parts true (ls ++ rest)
        ≡ collect keyword (parts ++ map unquoted ls) true rest
  unfolding collect is_quoted
  collect_quoted [] rest parts h k = rw append-nil refl
  collect_quoted (l ∷ ls) rest parts h k =
      rw (h.0, k.0)
        (collect_quoted ls rest (parts ++ unquoted l ∷ []) h.1 k.1
          ∙ ap (λ (ps : List String). collect keyword ps true rest)
              (append_assoc parts (unquoted l ∷ []) (map unquoted ls)))

keep-quoted : (ls : Block) → All IsQuoted ls → keep is_quoted ls ≡ ls
keep-quoted [] h = refl
keep-quoted (l ∷ ls) h = rw h.0 (ap (◌∷◌ l) (keep-quoted ls h.1))

All-quoted :
    (p : Char) (ps : String) (ls : Block)
    → (code p == 34) ≡ false
    → All IsQuoted ls
    → All (Begins (String.◌∷◌ p ps)) ls
All-quoted p ps [] e h = tt
All-quoted p ps (l ∷ ls) e h = (quoted_begins p ps l e h.0, All-quoted p ps ls e h.1)

abbrev NotMsgid : String → Type 0
NotMsgid l = is_msgid l ≡ false

-- The first `msgid` of some lines, with those before it and those after it.
abbrev FoundAt : String → Block → Block → Type 0
FoundAt l after ls =
    (before : Block) × (ls ≡ before ++ l ∷ after) × All NotMsgid before × (is_msgid l ≡ true)

from_msgid-FoundAt :
    (ls after : Block) (l : String) → from_msgid ls ≡ some (l, after) → FoundAt l after ls
unfolding from_msgid
from_msgid-FoundAt [] after l e = absurd (cc)
from_msgid-FoundAt (m ∷ ms) after l e = elim (Bool-cases (is_msgid m)) [
  | inl h ↦
      let k : some (m, ms) ≡ some (l, after) = rw h at e in
      let same : m ≡ l = cc k in
      let rest : ms ≡ after = cc k in ([], (λ i. same i ∷ rest i), tt, rw (← same) h)
  | inr h ↦
      let (before, e', none_before, found) = from_msgid-FoundAt ms after l (rw h at e) in
      (m ∷ before, ap (◌∷◌ m) e', (h, none_before), found)
]

abbrev NotTranslation : String → Type 0
NotTranslation l = is_translation l ≡ false

NotTranslation-with_line :
    (l : String) (o : Option Block) (head : Block)
    → NotTranslation l
    → ((before : Block) → o ≡ some before → All NotTranslation before)
    → with_line l o ≡ some head
    → All NotTranslation head
NotTranslation-with_line l none head h k e = absurd (cc)
NotTranslation-with_line l (some before) head h k e =
    let same : l ∷ before ≡ head = cc in rw (← same) (h, k before refl)

NotTranslation-before :
    (b head : Block) → before_translation b ≡ some head → All NotTranslation head
unfolding before_translation
NotTranslation-before [] head e = absurd (cc)
NotTranslation-before (l ∷ ls) head e = elim (Bool-cases (is_translation l)) [
  | inl t ↦ let same : [] ≡ head = cc (rw t at e) in rw (← same) tt
  | inr t ↦
      NotTranslation-with_line l (before_translation ls) head t (NotTranslation-before ls)
        (rw t at e)
]

Begins-msgstr : (ls : Block) → All NotTranslation ls → All (Begins "msgstr ") ls
unfolding is_translation
Begins-msgstr [] h = tt
Begins-msgstr (l ∷ ls) h = (no_longer l h.0, Begins-msgstr ls h.1)
  where
    no_longer : (l : String) → starts_with "msgstr" l ≡ false → starts_with "msgstr " l ≡ false
    no_longer l e = elim (Bool-cases (starts_with "msgstr " l)) [
      | inl h ↦ absurd (cc (starts_with-shorter "msgstr" " " l h))
      | inr h ↦ h
    ]

Begins-msgid : (ls : Block) → All NotMsgid ls → All (Begins "msgid ") ls
unfolding is_msgid
Begins-msgid [] h = tt
Begins-msgid (l ∷ ls) h = (h.0, Begins-msgid ls h.1)

drop_chars-append : (p s : String) → drop_chars (count p) (append p s) ≡ s
unfolding drop_chars
drop_chars-append String.[] s = rw nil-append refl
drop_chars-append (String.◌∷◌ c p) s = rw (length-cons, cons-append) (drop_chars-append p s)

-- A translation line ends a text that was being collected.
stops :
    (ps : List String) (s : String) (rest : Block)
    → collect "msgid " ps true (append "msgstr " s ∷ rest) ≡ ps
unfolding collect starts_with
stops ps s rest = rw (cons-append, cons-append, cons-append, cons-append) refl

module _ (before after : Block) (l : String) where
  -- The parts of the source.
  abbrev parts : List String
  parts = unquoted (drop_chars 6 l) ∷ map unquoted after

  abbrev entry : Block
  entry = (before ++ l ∷ after) ++ append "msgstr " (drop_chars 6 l) ∷ after

  parts_of_msgid :
      All NotMsgid before
      → is_msgid l ≡ true
      → All IsQuoted after
      → collect "msgid " [] false entry ≡ parts
  unfolding collect is_msgid
  parts_of_msgid h k q = rw (append_assoc before (l ∷ after) _) (
      collect_skip "msgid " before _ (Begins-msgid before h)
      ∙ rw k (
          collect_quoted "msgid " after _ (unquoted (drop_chars 6 l) ∷ [])
            (All-quoted "m" "sgid " after refl q) q
          ∙ stops parts (drop_chars 6 l) after))

  parts_of_msgstr :
      All NotTranslation (before ++ l ∷ after)
      → All IsQuoted after
      → collect "msgstr " [] false entry ≡ parts
  unfolding collect
  parts_of_msgstr h q =
      collect_skip "msgstr " (before ++ l ∷ after) _ (Begins-msgstr _ h)
      ∙ rw
          (
            starts_with-append "msgstr " (drop_chars 6 l),
            drop_chars-append "msgstr " (drop_chars 6 l),
          )
          (ap (collect "msgstr " (unquoted (drop_chars 6 l) ∷ []) true) (sym (append-nil after))
            ∙ collect_quoted "msgstr " after [] (unquoted (drop_chars 6 l) ∷ [])
                (All-quoted "m" "sgstr " after refl q) q)

-- In an entry whose text stands above its translation and goes on in quoted lines only, the
-- translation that `_sync_english_file` writes is read as the same text as the entry's own.
pub copy_source_lem :
    (b head after : Block) (l : String)
    → before_translation b ≡ some head
    → from_msgid head ≡ some (l, after)
    → All IsQuoted after
    → string_parts (copy_source b) "msgstr " ≡ string_parts (copy_source b) "msgid "
unfolding copy_source string_parts
copy_source_lem b head after l e f q =
    let (before, at, none_before, found) = from_msgid-FoundAt head after l f in
    let free : All NotTranslation (before ++ l ∷ after) =
      subst (All NotTranslation) at (NotTranslation-before b head e) in
    rw (e, f, keep-quoted after q, at)
      (ap joined (
        parts_of_msgstr before after l free q
        ∙ sym (parts_of_msgid before after l none_before found q)))
