-- ===== src/Intake/Linking.antt =====
-- apps/customers/services/linking.py: a contact is linked to an organization.
pub mod History
use azm_crm.Prelude.{
  ℕ, Option, none, some, Bool, ◌&&◌, not, ◌==◌, List, any, keep, length, is_some, if◌then◌else◌,
  update_where,
}
use azm_crm.Tickets.Model.{Ticket}
use azm_crm.Intake.Office.{Office, Person}

abbrev pub has_row : ℕ → List Person → Bool
has_row contact rows = any (λ (p : Person). p.pk == contact) rows

-- `Ticket.objects.filter(contact=contact, organization__isnull=True)`
abbrev pub is_unattributed : ℕ → Ticket → Bool
is_unattributed contact t =
    t.contact == contact && (not (is_some t.organization) && not (is_some t.deleted_at))

abbrev pub of_organization : ℕ → Person → Person
of_organization organization p = record p { organization = some organization }

abbrev pub under : ℕ → Ticket → Ticket
under organization t = record t { organization = some organization }

abbrev pub linked : ℕ → ℕ → Office → Office
linked contact organization o = record o {
  persons = update_where (λ (p : Person). p.pk == contact) (of_organization organization) o.persons;
  tickets = update_where (is_unattributed contact) (under organization) o.tickets;
}

-- The contact as the call leaves it, the number of tickets that were corrected, and the rows;
-- nothing where there is no row to save the contact in, which raises.
unfoldable pub link_contact : Person → ℕ → Office → Option (Person × (ℕ × Office))
link_contact contact organization o =
    if has_row contact.pk o.persons
    then some (
      of_organization organization contact,
      (length (keep (is_unattributed contact.pk) o.tickets), linked contact.pk organization o),
    )
    else none
