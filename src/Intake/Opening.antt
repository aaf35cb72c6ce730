-- ===== src/Intake/Opening.antt =====
-- apps/intake/services/creation.py, apps/accounts/services/defaults.py and `raise_request` of
-- apps/portal/services/tickets.py: a request that somebody outside opens.
use Prim.Native.Char.{code}
use azm_crm.Prelude.{
  ℕ, String, Option, none, some, Bool, true, false, first, update_where, ◌==◌, if◌then◌else◌,
}
use azm_crm.Tickets.Model.{Ticket, Channel, portal}
use azm_crm.Tickets.Creation.{Draft}
use azm_crm.Portal.Model.{Language, Account}
use azm_crm.Intake.Office.{Office, Person, Branch, Category, create_ticket}
use azm_crm.Intake.Matching.{find_or_create_contact}

unfoldable pub default_branch : Office → Option Branch
default_branch o = first (λ b. b.is_active) o.branches

-- `text.split("@")[0]`
unfoldable pub before_at : String → String
before_at String.[] = String.[]
before_at (String.◌∷◌ c s) =
    let rest = String.◌∷◌ c (before_at s) in if code c == 64 then String.[] else rest

-- The ticket, the contact and whether it was created; or the exception, for a desk with no active
-- branch, or a detail whose contact has no row.
pub data Opened : Type 0 where
  opened : Ticket → Person → Bool → Opened
  no_branch no_contact : Opened

abbrev pub speaks : Language → Person → Person
speaks language p = record p { preferred_language = language }

-- `contact.save(update_fields=["preferred_language"])`, of a contact that was created.
abbrev pub greet : Bool → Language → Person → Office → Person × Office
greet false language p o = (p, o)
greet true language p o = (
  speaks language p,
  record o { persons = update_where (λ q. q.pk == p.pk) (speaks language) o.persons },
)

-- What a caller gives.
pub record Request : Type 0 where
  pub full_name : String
  pub email : String
  pub subject : String
  pub description : String
  pub category : Category
  pub channel : Channel
  pub language : Language

abbrev pub request_draft : Request → ℕ → Person → Draft
request_draft r branch p = record {
  contact = p.pk;
  organization = p.organization;
  subject = r.subject;
  description = r.description;
  category = r.category.pk;
  channel = r.channel;
  department = r.category.department;
  branch = branch;
}

-- The transaction leaves nothing behind if it raises.
abbrev pub open_for : Request → ℕ → Office → (Option Person × Bool) × Office → Opened × Office
open_for r branch before ((none, created), o) = (no_contact, before)
open_for r branch before ((some p, created), o) =
    let (p', o') = greet created r.language p o in
    let (t, o'') = create_ticket (request_draft r branch p') o' in (opened t p' created, o'')

abbrev pub open_at : Request → Option Branch → Office → Opened × Office
open_at r none o = (no_branch, o)
open_at r (some b) o =
    open_for r b.pk o (find_or_create_contact r.full_name r.email r.category.department b.pk o)

unfoldable pub open_ticket : Request → Office → Opened × Office
unfolding default_branch
open_ticket r o = open_at r (default_branch o) o

unfoldable pub raise_request :
    Account → Category → String → String → Language → Office → Opened × Office
unfolding open_ticket before_at
raise_request a category subject description language o =
    open_ticket
      (record {
        full_name = before_at a.email;
        email = a.email;
        subject = subject;
        description = description;
        category = category;
        channel = portal;
        language = language;
      })
      o
