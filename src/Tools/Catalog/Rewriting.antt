-- ===== src/Tools/Catalog/Rewriting.antt =====
-- About `_blocks` and `_write` of tools/catalog.py: a catalog that is read and written again.
use Prim.Native.Char.{Char}
use Prim.Native.String.{String}
use mathlib.Core.List.{append-nil, append_assoc}
use azm_crm.Prelude.{
  Bool, true, false, ◌&&◌, ◌||◌, List, [], ◌∷◌, ◌++◌, map, keep, if◌then◌else◌, ◌≡◌, refl, sym, ap,
  ◌∙◌, arith, Bool-cases, &&-eq-true, inl, inr,
}
use azm_crm.Core.Text.{is_space, starts_with, strip_left, strip_right}
use azm_crm.Tools.Catalog.{
  Block, is_inked, is_written, drop_empty, drop_empty_last, drop_last, one_line, strip_newlines,
  starts_entry, is_translation, is_some_line, last_block, split_entries, blocks, clean, separated,
  write,
}

-- The lines with something on them, in their entries.
abbrev pub last_group : Block → List Block
last_group [] = []
last_group (l ∷ ls) = (l ∷ ls) ∷ []

unfoldable pub group : Block → Bool → List String → List Block
group current seen [] = last_group current
group current seen (l ∷ ls) =
    let ends = starts_entry l && seen in
    let later =
      group (if ends then l ∷ [] else current ++ l ∷ [])
        (is_translation l || (if ends then false else seen)) ls in
    if ends then current ∷ later else later

-- An empty line, and one with white space only.
not_inked : is_inked "" ≡ false
unfolding is_inked
not_inked = refl

clean-drop_empty : (b : Block) → clean (drop_empty b) ≡ clean b
unfolding drop_empty
clean-drop_empty [] = refl
clean-drop_empty (String.[] ∷ ls) = rw not_inked (clean-drop_empty ls)
clean-drop_empty (String.◌∷◌ c s ∷ ls) = refl

clean-drop_last : (l : String) (b : Block) → clean (drop_last l b) ≡ clean (l ∷ b)
clean-drop_last String.[] [] = rw not_inked refl
clean-drop_last (String.◌∷◌ c s) [] = refl
clean-drop_last l (m ∷ ms) = refl

clean-drop_empty_last : (b : Block) → clean (drop_empty_last b) ≡ clean b
unfolding drop_empty_last
clean-drop_empty_last [] = refl
clean-drop_empty_last (l ∷ ls) =
    clean-drop_last l (drop_empty_last ls)
    ∙ ap (λ (rest : Block). if is_inked l then l ∷ rest else rest) (clean-drop_empty_last ls)

clean-one_line : (b : Block) → clean (one_line b) ≡ clean b
clean-one_line [] = rw not_inked refl
clean-one_line (l ∷ ls) = refl

pub clean-strip_newlines : (b : Block) → clean (strip_newlines b) ≡ clean b
unfolding strip_newlines
clean-strip_newlines b =
    clean-one_line (drop_empty_last (drop_empty b))
    ∙ clean-drop_empty_last (drop_empty b)
    ∙ clean-drop_empty b

-- A block is written when it has such a line.
is_written-clean : (b : Block) → is_written b ≡ is_some_line (clean b)
is_written-clean [] = refl
is_written-clean (l ∷ ls) = elim (Bool-cases (is_inked l)) [
  | inl e ↦ rw e refl
  | inr e ↦ rw e (is_written-clean ls)
]

pub keep-append : (p : String → Bool) (a b : Block) → keep p (a ++ b) ≡ keep p a ++ keep p b
keep-append p [] b = refl
keep-append p (l ∷ ls) b = elim (Bool-cases (p l)) [
  | inl e ↦ rw e (ap (◌∷◌ l) (keep-append p ls b))
  | inr e ↦ rw e (keep-append p ls b)
]

starts_with-is_inked :
    (p : Char) (ps l : String)
    → is_space p ≡ false
    → starts_with (String.◌∷◌ p ps) l ≡ true
    → is_inked l ≡ true
unfolding starts_with is_inked strip_left strip_right is_space
starts_with-is_inked p ps String.[] e h = absurd (cc)
starts_with-is_inked p ps (String.◌∷◌ c s) e h = ground (arith)

blank_starts_nothing : (l : String) → is_inked l ≡ false → starts_entry l ≡ false
unfolding starts_entry is_space
blank_starts_nothing l e = elim (Bool-cases (starts_with "#" l)) [
  | inl h ↦ absurd (cc (starts_with-is_inked "#" "" l refl h))
  | inr h ↦ elim (Bool-cases (starts_with "msgid " l)) [
    | inl k ↦ absurd (cc (starts_with-is_inked "m" "sgid " l refl k))
    | inr k ↦ rw (h, k) refl
  ]
]

blank_translates_nothing : (l : String) → is_inked l ≡ false → is_translation l ≡ false
unfolding is_translation is_space
blank_translates_nothing l e = elim (Bool-cases (starts_with "msgstr" l)) [
  | inl k ↦ absurd (cc (starts_with-is_inked "m" "sgstr" l refl k))
  | inr k ↦ k
]

last_group_lem : (c : Block) → (if is_some_line c then c ∷ [] else []) ≡ last_group c
last_group_lem [] = refl
last_group_lem (l ∷ ls) = refl

clean_one : (b : Block) → map clean (keep is_written (b ∷ [])) ≡ last_group (clean b)
clean_one b = elim (Bool-cases (is_some_line (clean b))) [
  | inl e ↦ rw (is_written-clean, e) (rw e at (last_group_lem (clean b)))
  | inr e ↦ rw (is_written-clean, e) (rw e at (last_group_lem (clean b)))
]

clean_last :
    (current : Block)
    → map clean (keep is_written (last_block current)) ≡ last_group (clean current)
clean_last [] = refl
clean_last (l ∷ ls) =
    clean_one (strip_newlines (l ∷ ls)) ∙ ap last_group (clean-strip_newlines (l ∷ ls))

is_some_line-append : (b : Block) (l : String) → is_some_line (b ++ l ∷ []) ≡ true
is_some_line-append [] l = refl
is_some_line-append (m ∷ ms) l = refl

is_some_line-clean : (b : Block) → is_some_line (clean b) ≡ true → is_some_line b ≡ true
is_some_line-clean [] h = h
is_some_line-clean (l ∷ ls) h = refl

clean_more :
    (b : Block) (later : List Block)
    → is_some_line (clean b) ≡ true
    → map clean (keep is_written (strip_newlines b ∷ later))
      ≡ clean b ∷ map clean (keep is_written later)
clean_more b later h =
    rw (is_written-clean, clean-strip_newlines, h)
      (ap (λ (c : Block). c ∷ map clean (keep is_written later)) (clean-strip_newlines b))

-- While an entry is being read whose translation was seen, it has a line with something on it.
abbrev Seen : Block → Bool → Type 0
Seen current seen = seen ≡ true → is_some_line (clean current) ≡ true

guarded :
    (current : Block) (starts seen : Bool)
    → Seen current seen
    → (starts && (seen && is_some_line current)) ≡ (starts && seen)
guarded current starts true h = rw (is_some_line-clean current (h refl)) refl
guarded current true false h = refl
guarded current false false h = refl

clean-append_blank : (b : Block) (l : String) → is_inked l ≡ false → clean (b ++ l ∷ []) ≡ clean b
clean-append_blank b l e = keep-append is_inked b (l ∷ []) ∙ rw (e, append-nil) refl

clean-append_inked :
    (b : Block) (l : String) → is_inked l ≡ true → clean (b ++ l ∷ []) ≡ clean b ++ l ∷ []
clean-append_inked b l e = keep-append is_inked b (l ∷ []) ∙ rw e refl

clean-split_entries :
    (text : List String) (current : Block) (seen : Bool)
    → Seen current seen
    → map clean (keep is_written (split_entries current seen text))
      ≡ group (clean current) seen (clean text)
unfolding split_entries group
clean-split_entries [] current seen h = clean_last current
clean-split_entries (l ∷ ls) current seen h = elim (Bool-cases (is_inked l)) [
  | inr e ↦
      rw (e, blank_starts_nothing l e, blank_translates_nothing l e)
        (clean-split_entries ls (current ++ l ∷ []) seen
            (λ k. rw (clean-append_blank current l e) (h k))
          ∙ ap (λ (c : Block). group c seen (clean ls)) (clean-append_blank current l e))
  | inl e ↦ elim (Bool-cases (starts_entry l && seen)) [
    | inl k ↦
        rw (e, guarded current (starts_entry l) seen h, k)
          (clean_more current (split_entries (l ∷ []) (is_translation l || false) ls)
              (h (&&-eq-true (starts_entry l) seen k).1)
            ∙ ap (◌∷◌ (clean current)) (
                clean-split_entries ls (l ∷ []) _ (λ k'. rw e refl)
                ∙ ap (λ (c : Block). group c (is_translation l || false) (clean ls)) (rw e refl)))
    | inr k ↦
        rw (e, guarded current (starts_entry l) seen h, k)
          (clean-split_entries ls (current ++ l ∷ []) _
              (λ k'. rw (clean-append_inked current l e) (is_some_line-append (clean current) l))
            ∙ ap (λ (c : Block). group c (is_translation l || seen) (clean ls))
                (clean-append_inked current l e))
  ]
]

abbrev pub concat : List Block → Block
concat [] = []
concat (b ∷ bs) = b ++ concat bs

concat-last_group : (b : Block) → concat (last_group b) ≡ b
concat-last_group [] = refl
concat-last_group (l ∷ ls) = append-nil (l ∷ ls)

pub concat-group :
    (text current : List String) (seen : Bool) → concat (group current seen text) ≡ current ++ text
unfolding group
concat-group [] current seen = concat-last_group current ∙ sym (append-nil current)
concat-group (l ∷ ls) current seen = elim (Bool-cases (starts_entry l && seen)) [
  | inl e ↦ rw e (ap (◌++◌ current) (concat-group ls (l ∷ []) _))
  | inr e ↦ rw e (concat-group ls (current ++ l ∷ []) _ ∙ append_assoc current (l ∷ []) ls)
]

clean-clean : (b : Block) → clean (clean b) ≡ clean b
clean-clean [] = refl
clean-clean (l ∷ ls) = elim (Bool-cases (is_inked l)) [
  | inl e ↦ rw (e, e) (ap (◌∷◌ l) (clean-clean ls))
  | inr e ↦ rw e (clean-clean ls)
]

clean-separated : (bs : List Block) → clean (separated (map clean bs)) ≡ concat (map clean bs)
unfolding separated
clean-separated [] = rw not_inked refl
clean-separated (b ∷ []) =
    keep-append is_inked (clean b) ("" ∷ []) ∙ rw (not_inked, clean-clean b) refl
clean-separated (b ∷ c ∷ bs) =
    keep-append is_inked (clean b) ("" ∷ separated (map clean (c ∷ bs)))
    ∙ rw (not_inked, clean-clean b) (ap (◌++◌ (clean b)) (clean-separated (c ∷ bs)))

concat-written : (bs : List Block) → concat (map clean (keep is_written bs)) ≡ concat (map clean bs)
concat-written [] = refl
concat-written (b ∷ bs) = elim (Bool-cases (is_some_line (clean b))) [
  | inl e ↦ rw (is_written-clean, e) (ap (◌++◌ (clean b)) (concat-written bs))
  | inr e ↦
      rw (is_written-clean, e)
        (concat-written bs
          ∙ ap (λ (c : Block). c ++ concat (map clean bs)) (sym (nothing (clean b) e)))
]
  where
    nothing : (c : Block) → is_some_line c ≡ false → c ≡ []
    nothing [] h = refl
    nothing (l ∷ ls) h = absurd (cc)

-- The lines with something on them that a file of entries has.
pub clean-write : (bs : List Block) → clean (write bs) ≡ concat (map clean bs)
unfolding write
clean-write bs = clean-separated (keep is_written bs) ∙ concat-written bs

keep-keep : (bs : List Block) → keep is_written (keep is_written bs) ≡ keep is_written bs
keep-keep [] = refl
keep-keep (b ∷ bs) = elim (Bool-cases (is_written b)) [
  | inl e ↦ rw (e, e) (ap (◌∷◌ b) (keep-keep bs))
  | inr e ↦ rw e (keep-keep bs)
]

-- The entries of a text, without its empty lines.
pub clean-blocks : (text : List String) → map clean (blocks text) ≡ group [] false (clean text)
unfolding blocks
clean-blocks text = clean-split_entries text [] false (λ h. absurd (cc))

pub write-blocks :
    (text : List String) → write (blocks text) ≡ separated (group [] false (clean text))
unfolding write blocks
write-blocks text =
    rw keep-keep (ap separated (clean-split_entries text [] false (λ h. absurd (cc))))

pub clean-write-blocks : (text : List String) → clean (write (blocks text)) ≡ clean text
clean-write-blocks text =
    clean-write (blocks text) ∙ ap concat (clean-blocks text) ∙ concat-group (clean text) [] false
