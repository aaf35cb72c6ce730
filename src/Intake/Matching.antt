-- ===== src/Intake/Matching.antt =====
-- apps/customers/services/matching.py: whose address it is.
use text.Mathlib.Text.{◌==◌ as str_eq}
use azm_crm.Prelude.{
  ℕ, ◌+◌, String, Option, none, some, Bool, true, false, ◌&&◌, not, List, [], ◌∷◌, ◌++◌, first,
  is_some, ◌==◌,
}
use azm_crm.Core.Text.{strip}
use azm_crm.Portal.Model.{arabic}
use azm_crm.Portal.Requests.{Detail, email, is_email}
use azm_crm.Intake.Office.{Office, Person}

-- A live e-mail address with this value.
abbrev pub is_address : String → Detail → Bool
is_address value d = is_email d.kind && (str_eq d.value value && not (is_some d.deleted_at))

abbrev pub new_person : ℕ → String → ℕ → ℕ → Person
new_person pk full_name department branch = record {
  pk = pk;
  organization = none;
  full_name = full_name;
  preferred_language = arabic;
  department = department;
  branch = branch;
}

abbrev pub new_detail : ℕ → String → Detail
new_detail contact value = record {
  contact = contact;
  kind = email;
  value = value;
  deleted_at = none;
}

-- The contact that a detail refers to; a foreign key has its row.
abbrev pub person_of : ℕ → List Person → Option Person
person_of pk rows = first (λ p. p.pk == pk) rows

abbrev pub create_person : String → String → ℕ → ℕ → Office → (Option Person × Bool) × Office
create_person full_name value department branch o =
    let p = new_person o.next_pk full_name department branch in
    (
      (some p, true),
      record o {
        persons = o.persons ++ p ∷ [];
        details = o.details ++ new_detail o.next_pk value ∷ [];
        next_pk = o.next_pk + 2;
      },
    )

abbrev pub match_or_create :
    Option Detail → String → String → ℕ → ℕ → Office → (Option Person × Bool) × Office
match_or_create (some d) full_name value department branch o =
    ((person_of d.contact o.persons, false), o)
match_or_create none full_name value department branch o =
    create_person full_name value department branch o

-- The contact and whether it was created.
unfoldable pub find_or_create_contact :
    String → String → ℕ → ℕ → Office → (Option Person × Bool) × Office
find_or_create_contact full_name address department branch o =
    let value = o.letters.lower (strip address) in
    match_or_create (first (is_address value) o.details) full_name value department branch o
