-- ===== src/Core/Sequence.antt =====
-- apps/core/models_sequence.py: the references that people quote. A counter is kept for each
-- prefix and year; its row is locked while it is raised, so that an allocation is one step.
pub mod Distinct
use Prim.Native.String.{String}
use Prim.Native.String.{◌++◌ as append}
use text.Mathlib.Text.{◌==◌ as str_eq}
use azm_crm.Prelude.{
  ℕ, ◌+◌, Option, none, some, Bool, ◌&&◌, ◌==◌, List, [], ◌∷◌, ◌++◌, first, update_where, is_some,
  if◌then◌else◌,
}
use azm_crm.Core.Decimal.{decimal, six_digits}

pub record Sequence : Type 0 where
  pub prefix : String
  pub year : ℕ
  pub last_value : ℕ

abbrev pub is_for : String → ℕ → Sequence → Bool
is_for prefix year s = str_eq s.prefix prefix && s.year == year

abbrev fresh : String → ℕ → Sequence
fresh prefix year = record { prefix = prefix; year = year; last_value = 0 }

abbrev row_or_new : Option Sequence → String → ℕ → List Sequence → Sequence × List Sequence
row_or_new (some s) prefix year rows = (s, rows)
row_or_new none prefix year rows = (fresh prefix year, rows ++ fresh prefix year ∷ [])

abbrev set_value : ℕ → Sequence → Sequence
set_value v s = record s { last_value = v }

-- `ReferenceSequence.next_value`. The row that is saved is the one of the prefix and the year: the
-- table has one at most.
unfoldable pub next_value : String → ℕ → List Sequence → ℕ × List Sequence
next_value prefix year rows =
    let (s, rows') = row_or_new (first (is_for prefix year) rows) prefix year rows in
    (s.last_value + 1, update_where (is_for prefix year) (set_value (s.last_value + 1)) rows')

unfoldable pub format : String → ℕ → ℕ → String
format prefix year value =
    append prefix (String.◌∷◌ "-" (append (decimal year) (String.◌∷◌ "-" (six_digits value))))

unfoldable pub allocate_reference : String → ℕ → List Sequence → String × List Sequence
unfolding next_value format
allocate_reference prefix year rows =
    let (value, rows') = next_value prefix year rows in (format prefix year value, rows')
