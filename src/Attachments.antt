-- ===== src/Attachments.antt =====
-- apps/attachments/services: files that come in with a message or a note.

pub mod Safe
mod Tests
use Prim.Native.Char.{Char, code}
use Prim.Native.String.{String}
use text.Mathlib.Text.{◌==◌ as str_eq}
use azm_crm.Prelude.{
  ℕ, zero, suc, ◌+◌, Option, none, some, Bool, true, false, not, ◌&&◌, ◌||◌, List, [], ◌∷◌, ◌++◌,
  any, keep, ◌==◌, ltb, if◌then◌else◌,
}
use azm_crm.Core.Text.{is_empty}

-- An uploaded file, without its content; a name that is missing is empty.
pub record Upload : Type 0 where
  pub name : String
  pub content_type : String
  pub size : ℕ

pub data Parent : Type 0 where
  of_message : ℕ → Parent
  of_note : ℕ → Parent

pub record Attachment : Type 0 where
  pub parent : Parent
  pub file : Upload
  pub original_filename : String
  pub content_type : String
  pub size_bytes : ℕ
  pub uploaded_by : Option ℕ
  pub department : ℕ
  pub branch : ℕ

-- The messages of the `ValidationError`s; the second has the size, the third the suffix.
pub data Refusal : Type 0 where
  empty : Refusal
  too_big : ℕ → Refusal
  kind : String → Refusal

abbrev pub is_slash : Char → Bool
is_slash c = code c == 47

-- The last part of a path, read from its beginning: a part that is empty, or a single dot, is none.
abbrev pub or_part : String → String → String
or_part part last = if is_empty part || str_eq part "." then last else part

abbrev pub append_char : String → Char → String
append_char s c = Prim.Native.String.◌++◌ s (String.◌∷◌ c String.[])

unfoldable pub last_part : String → String → String → String
last_part last part String.[] = or_part part last
last_part last part (String.◌∷◌ c s) =
    last_part (if is_slash c then or_part part last else last)
      (if is_slash c then "" else append_char part c) s

-- `Path(name).name`
unfoldable pub path_name : String → String
unfolding last_part
path_name name = last_part "" "" name

-- What follows the last dot, with the dot, where the dot is neither first nor last.
abbrev pub is_dot : Char → Bool
is_dot c = code c == 46

abbrev pub or_later : Option String → Option String → Option String
or_later none earlier = earlier
or_later (some s) earlier = some s

unfoldable pub from_last_dot : String → Option String
from_last_dot String.[] = none
from_last_dot (String.◌∷◌ c s) =
    or_later (from_last_dot s) (if is_dot c then some (String.◌∷◌ c s) else none)

abbrev pub unless_bare : Option String → String
unless_bare none = ""
unless_bare (some String.[]) = ""
unless_bare (some (String.◌∷◌ c s)) = if is_empty s then "" else String.◌∷◌ c s

abbrev pub after_first : String → Option String
after_first String.[] = none
after_first (String.◌∷◌ c s) = from_last_dot s

-- `Path(name).suffix`
unfoldable pub path_suffix : String → String
unfolding path_name from_last_dot
path_suffix name = unless_bare (after_first (path_name name))

unfoldable pub take_chars : ℕ → String → String
take_chars zero s = String.[]
take_chars (suc n) String.[] = String.[]
take_chars (suc n) (String.◌∷◌ c s) = String.◌∷◌ c (take_chars n s)

abbrev pub allowed_extensions : List String
allowed_extensions =
    ".pdf" ∷ ".png" ∷ ".jpg" ∷ ".jpeg" ∷ ".gif" ∷ ".webp" ∷ ".doc" ∷ ".docx" ∷ ".xls" ∷ ".xlsx"
    ∷ ".csv" ∷ ".txt" ∷ ".log" ∷ ".zip" ∷ ".heic" ∷ []

-- `safe_display_name`
unfoldable pub safe_display_name : String → String
unfolding path_name take_chars
safe_display_name filename =
    let shown = take_chars 255 (path_name filename) in
    if is_empty shown then "attachment" else shown

-- `str.lower` and the setting of the largest size are parameters.
module _ (lower : String → String) (max_bytes : ℕ) where
  abbrev pub kind_of : Upload → String
  kind_of f = lower (path_suffix f.name)

  -- `validate_upload`: the refusal, if there is one.
  unfoldable pub validate_upload : Upload → Option Refusal
  unfolding path_suffix
  validate_upload f =
      if f.size == 0
      then some empty
      else if ltb max_bytes f.size
      then some (too_big f.size)
      else if any (str_eq (kind_of f)) allowed_extensions
      then none
      else some (kind (kind_of f))

  abbrev pub created : Parent → Option ℕ → ℕ → ℕ → Upload → Attachment
  created parent uploader department branch f = record {
    parent = parent;
    file = f;
    original_filename = safe_display_name f.name;
    content_type = take_chars 100 f.content_type;
    size_bytes = f.size;
    uploaded_by = uploader;
    department = department;
    branch = branch;
  }

  abbrev pub Attached : Type 0
  Attached = List Attachment × List (String × Refusal)

  abbrev pub add_file : Option Refusal → Attachment → String → Attached → Attached
  add_file none a name (as', errors) = (a ∷ as', errors)
  add_file (some e) a name (as', errors) = (as', (name, e) ∷ errors)

  -- The loop of `attach_to_message` and of `attach_to_note`, with `_create`.
  unfoldable pub attach : Parent → Option ℕ → ℕ → ℕ → List Upload → Attached
  unfolding validate_upload safe_display_name
  attach parent uploader department branch [] = ([], [])
  attach parent uploader department branch (f ∷ fs) =
      add_file (validate_upload f) (created parent uploader department branch f)
        (safe_display_name f.name) (attach parent uploader department branch fs)
