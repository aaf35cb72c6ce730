-- ===== src/Tickets/Creation.antt =====
-- Creating a ticket (apps/tickets/models.py, `Ticket.save`, and services/reference.py): it is given
-- a reference, and the defaults of its fields.
use Prim.Native.String.{String}
use azm_crm.Prelude.{ℕ, Option, none, List}
use azm_crm.Core.Sequence.{Sequence, allocate_reference}
use azm_crm.Tickets.Model.{Ticket, Channel, normal, new}

-- The fields that callers of `Ticket.objects.create` give.
pub record Draft : Type 0 where
  pub contact : ℕ
  pub organization : Option ℕ
  pub subject : String
  pub description : String
  pub category : ℕ
  pub channel : Channel
  pub department : ℕ
  pub branch : ℕ

unfoldable pub next_ticket_reference : ℕ → List Sequence → String × List Sequence
unfolding allocate_reference
next_ticket_reference year rows = allocate_reference "AZM" year rows

abbrev pub ticket_of : Draft → ℕ → String → ℕ → Ticket
ticket_of d pk reference now = record {
  pk = pk;
  reference = reference;
  organization = d.organization;
  contact = d.contact;
  subject = d.subject;
  description = d.description;
  category = d.category;
  priority = normal;
  status = new;
  assigned_to = none;
  origin_channel = d.channel;
  first_response_at = none;
  resolved_at = none;
  department = d.department;
  branch = d.branch;
  created_at = now;
  deleted_at = none;
  deleted_by = none;
}
