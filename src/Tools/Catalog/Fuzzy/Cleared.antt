-- ===== src/Tools/Catalog/Fuzzy/Cleared.antt =====
-- About `clear_fuzzy` of tools/catalog.py: the marks go, and nothing else.
use Prim.Native.Char.{Char}
use Prim.Native.String.{String}
use azm_crm.Prelude.{
  Bool, false, not, ◌||◌, List, [], ◌∷◌, map, keep, if◌then◌else◌, ◌≡◌, refl, ap, ◌∙◌, Bool-cases,
  inl, inr, All,
}
use azm_crm.Core.Lines.{split_lines}
use azm_crm.Core.Lines.Laws.{IsLine}
use azm_crm.Tools.Catalog.{Block, is_inked, blocks, clean, rewrite}
use azm_crm.Tools.Catalog.Parts.{is_header, is_previous, is_fuzzy}
use azm_crm.Tools.Catalog.Rewriting.{concat, clean-write}
use azm_crm.Tools.Catalog.Stable.{split_lines-write, clean-blocks-IsLine}
use azm_crm.Tools.Catalog.Fuzzy.{remove_lines, unmarked, clear_block, clear_fuzzy_file}

unmarked_by : (String → Bool) → Block → Block
unmarked_by p b = keep (λ l. not (p l)) b

not_inked : is_inked "" ≡ false
unfolding is_inked
not_inked = refl

clean-remove_one :
    (p : String → Bool) (l : String)
    → clean ((if p l then "" else l) ∷ []) ≡ keep (λ m. not (p m)) (clean (l ∷ []))
clean-remove_one p l = elim (Bool-cases (p l)) [
  | inl e ↦ elim (Bool-cases (is_inked l)) [
    | inl k ↦ rw (e, k, not_inked, e) refl
    | inr k ↦ rw (e, k, not_inked) refl
  ]
  | inr e ↦ elim (Bool-cases (is_inked l)) [ inl k ↦ rw (e, k, e) refl | inr k ↦ rw (e, k) refl ]
]

clean-remove_lines :
    (p : String → Bool) (b : Block) → clean (remove_lines p b) ≡ keep (λ l. not (p l)) (clean b)
unfolding remove_lines
clean-remove_lines p [] = refl
clean-remove_lines p (l ∷ []) = clean-remove_one p l
clean-remove_lines p (l ∷ m ∷ ls) = elim (Bool-cases (p l)) [
  | inl e ↦ elim (Bool-cases (is_inked l)) [
    | inl k ↦ rw (e, k, e) (clean-remove_lines p (m ∷ ls))
    | inr k ↦ rw (e, k) (clean-remove_lines p (m ∷ ls))
  ]
  | inr e ↦ elim (Bool-cases (is_inked l)) [
    | inl k ↦ rw (e, k, e) (ap (◌∷◌ l) (clean-remove_lines p (m ∷ ls)))
    | inr k ↦ rw (e, k) (clean-remove_lines p (m ∷ ls))
  ]
]

module _ (is_word : Char → Bool) where
  abbrev pub is_mark : String → Bool
  is_mark l = is_fuzzy is_word l || is_previous l

  -- The lines that stay of an entry: the header's all, of another those that are no marks.
  abbrev pub stays : Block → Block
  stays b = if is_header b then clean b else keep (λ l. not (is_mark l)) (clean b)

  keep_both :
      (b : Block)
      → keep (λ l. not (is_previous l)) (keep (λ l. not (is_fuzzy is_word l)) b)
        ≡ keep (λ l. not (is_mark l)) b
  keep_both [] = refl
  keep_both (l ∷ ls) = elim (Bool-cases (is_fuzzy is_word l)) [
    | inl e ↦ rw e (keep_both ls)
    | inr e ↦ elim (Bool-cases (is_previous l)) [
      | inl k ↦ rw (e, k) (keep_both ls)
      | inr k ↦ rw (e, k) (ap (◌∷◌ l) (keep_both ls))
    ]
  ]

  clean-clear_block : (b : Block) → clean (clear_block is_word b) ≡ stays b
  unfolding clear_block unmarked
  clean-clear_block b = elim (Bool-cases (is_header b)) [
    | inl e ↦ rw e refl
    | inr e ↦ rw e (
        clean-remove_lines is_previous (remove_lines (is_fuzzy is_word) b)
        ∙ ap (keep (λ l. not (is_previous l))) (clean-remove_lines (is_fuzzy is_word) b)
        ∙ keep_both (clean b))
  ]

  map-clean-clear : (bs : List Block) → map clean (map (clear_block is_word) bs) ≡ map stays bs
  map-clean-clear [] = refl
  map-clean-clear (b ∷ bs) = rw (clean-clear_block b) (ap (◌∷◌ (stays b)) (map-clean-clear bs))

  All-keep : (P : String → Type 0) (p : String → Bool) (b : Block) → All P b → All P (keep p b)
  All-keep P p [] h = h
  All-keep P p (l ∷ ls) h = elim (Bool-cases (p l)) [
    | inl e ↦ rw e (h.0, All-keep P p ls h.1)
    | inr e ↦ rw e (All-keep P p ls h.1)
  ]

  stays-IsLine :
      (bs : List Block) → All (All IsLine) (map clean bs) → All (All IsLine) (map stays bs)
  stays-IsLine [] h = tt
  stays-IsLine (b ∷ bs) h = elim (Bool-cases (is_header b)) [
    | inl e ↦ rw e (h.0, stays-IsLine bs h.1)
    | inr e ↦ rw e (All-keep IsLine (λ l. not (is_mark l)) (clean b) h.0, stays-IsLine bs h.1)
  ]

  -- The lines with something on them of a file after `_clear_fuzzy_file` are those of its entries
  -- before, in their order, without the fuzzy flags and the records of earlier texts; the
  -- header's are all there.
  pub clear_fuzzy_file_lem :
      (file : String)
      → clean (split_lines (clear_fuzzy_file is_word file))
        ≡ concat (map stays (blocks (split_lines file)))
  unfolding clear_fuzzy_file rewrite
  clear_fuzzy_file_lem file =
      let bs = blocks (split_lines file) in
      ap clean (
        split_lines-write (map (clear_block is_word) bs)
          (rw (map-clean-clear bs) (stays-IsLine bs (clean-blocks-IsLine file))))
      ∙ clean-write (map (clear_block is_word) bs)
      ∙ ap concat (map-clean-clear bs)
