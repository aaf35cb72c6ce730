-- ===== src/Tools/Catalog/Stable.antt =====
-- About `_blocks` and `_write` of tools/catalog.py: reading and writing loses no line, and to do it
-- again changes nothing.
use Prim.Native.String.{String}
use azm_crm.Prelude.{
  Bool, true, false, ◌&&◌, List, [], ◌∷◌, ◌++◌, map, keep, ◌≡◌, refl, sym, ap, ◌∙◌, Bool-cases, inl,
  inr, All, All-append,
}
use azm_crm.Core.Lines.{split_lines, join_lines}
use azm_crm.Core.Lines.Laws.{IsLine, split_lines-IsLine, split_lines-join_lines}
use azm_crm.Tools.Catalog.{
  Block, is_inked, is_written, is_some_line, starts_entry, blocks, clean, separated, write, rewrite,
}
use azm_crm.Tools.Catalog.Rewriting.{
  group, last_group, clean-blocks, write-blocks, clean-write-blocks,
}

module _ (P : String → Type 0) where
  pub All-clean : (b : Block) → All P b → All P (clean b)
  All-clean [] h = h
  All-clean (l ∷ ls) h = elim (Bool-cases (is_inked l)) [
    | inl e ↦ rw e (h.0, All-clean ls h.1)
    | inr e ↦ rw e (All-clean ls h.1)
  ]

  All-last_group : (b : Block) → All P b → All (All P) (last_group b)
  All-last_group [] h = tt
  All-last_group (l ∷ ls) h = (h, tt)

  pub All-group :
      (text current : Block) (seen : Bool)
      → All P current
      → All P text
      → All (All P) (group current seen text)
  unfolding group
  All-group [] current seen h k = All-last_group current h
  All-group (l ∷ ls) current seen h k = elim (Bool-cases (starts_entry l && seen)) [
    | inl e ↦ rw e (h, All-group ls (l ∷ []) _ (k.0, tt) k.1)
    | inr e ↦
        rw e (All-group ls (current ++ l ∷ []) _ (All-append P current (l ∷ []) h (k.0, tt)) k.1)
  ]

  pub All-separated : (bs : List Block) → P "" → All (All P) bs → All P (separated bs)
  unfolding separated
  All-separated [] e h = (e, (e, tt))
  All-separated (b ∷ []) e h = All-append P b ("" ∷ []) h.0 (e, tt)
  All-separated (b ∷ c ∷ bs) e h =
      All-append P b ("" ∷ separated (c ∷ bs)) h.0 (e, All-separated (c ∷ bs) e h.1)

split_lines-lines :
    (ls : List String) → is_some_line ls ≡ true → All IsLine ls → split_lines (join_lines ls) ≡ ls
split_lines-lines [] e h = absurd (cc)
split_lines-lines (l ∷ ls) e h = split_lines-join_lines l ls h

separated_some : (bs : List Block) → is_some_line (separated bs) ≡ true
unfolding separated
separated_some [] = refl
separated_some ([] ∷ []) = refl
separated_some ((l ∷ ls) ∷ []) = refl
separated_some ([] ∷ c ∷ bs) = refl
separated_some ((l ∷ ls) ∷ c ∷ bs) = refl

All-written :
    (P : String → Type 0) (bs : List Block)
    → All (All P) (map clean bs)
    → All (All P) (map clean (keep is_written bs))
All-written P [] h = tt
All-written P (b ∷ bs) h = elim (Bool-cases (is_written b)) [
  | inl e ↦ rw e (h.0, All-written P bs h.1)
  | inr e ↦ rw e (All-written P bs h.1)
]

-- A text whose lines were written is split into them again.
pub split_lines-write :
    (bs : List Block)
    → All (All IsLine) (map clean bs)
    → split_lines (join_lines (write bs)) ≡ write bs
unfolding write
split_lines-write bs h =
    split_lines-lines _ (separated_some _) (All-separated IsLine _ tt (All-written IsLine bs h))

pub clean-blocks-IsLine : (text : String) → All (All IsLine) (map clean (blocks (split_lines text)))
clean-blocks-IsLine text =
    rw (clean-blocks (split_lines text))
      (All-group IsLine _ [] false tt (All-clean IsLine _ (split_lines-IsLine text)))

lines_written :
    (text : String) → split_lines (rewrite (λ bs. bs) text) ≡ write (blocks (split_lines text))
unfolding rewrite
lines_written text = split_lines-write _ (clean-blocks-IsLine text)

rewrite_lem :
    (text : String)
    → rewrite (λ bs. bs) text ≡ join_lines (separated (group [] false (clean (split_lines text))))
unfolding rewrite
rewrite_lem text = ap join_lines (write-blocks (split_lines text))

-- A catalog that is read and written back, whatever its text: no line with something on it is
-- lost, added or moved; reading the result gives the same entries, up to their empty lines; and
-- to do it again leaves the text as it is.
pub rewrite-Stable :
    (text : String)
    → (clean (split_lines (rewrite (λ bs. bs) text)) ≡ clean (split_lines text))
      × (map clean (blocks (split_lines (rewrite (λ bs. bs) text)))
          ≡ map clean (blocks (split_lines text)))
      × (rewrite (λ bs. bs) (rewrite (λ bs. bs) text) ≡ rewrite (λ bs. bs) text)
rewrite-Stable text =
    let e = lines_written text in
    let lines = ap clean e ∙ clean-write-blocks (split_lines text) in
    let entries = ap (group [] false) lines in
    (
      lines,
      clean-blocks _ ∙ entries ∙ sym (clean-blocks (split_lines text)),
      rewrite_lem _ ∙ ap (λ bs. join_lines (separated bs)) entries ∙ sym (rewrite_lem text),
    )
