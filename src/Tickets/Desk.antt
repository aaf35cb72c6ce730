-- ===== src/Tickets/Desk.antt =====
-- apps/tickets/views.py: what staff do with tickets. A view is a function of the user, of what the
-- request asks for, and of the rows; its answer is the pane of a ticket or a refusal.
pub mod Scope
pub mod Taking
mod Tests
use azm_crm.Prelude.{
  ℕ, ◌+◌, String, Option, none, some, Bool, true, false, not, ◌&&◌, ◌||◌, List, [], ◌∷◌, ◌++◌,
  first, is_some, ◌==◌, same_id, update_where, if◌then◌else◌,
}
use text.Mathlib.Text.{◌==◌ as str_eq}
use azm_crm.Core.Text.{strip, is_empty}
use azm_crm.Chat.Model.{User, Role, agent, supervisor, administrator}
use azm_crm.Attachments.{Upload, Attachment, of_message, attach, Refusal}
use azm_crm.Intake.Office.{Category}
use azm_crm.Tickets.Model.{
  Ticket, Message, Priority, Status, new, opened, Channel, email, outbound, shared, internal,
  Visibility, pending, not_applicable, DeliveryStatus, Requested,
}
use azm_crm.Tickets.Lifecycle.{Result, ok, invalid, Field, apply_transition, save}

-- The rows, the replies that were queued for delivery with who wrote them, and the refusals of
-- files that were shown.
pub record Desk : Type 0 where
  pub now : ℕ
  pub next_pk : ℕ
  pub lower : String → String
  pub max_bytes : ℕ
  pub broker_answers : Bool
  pub users : List User
  pub categories : List Category
  pub tickets : List Ticket
  pub messages : List Message
  pub attachments : List Attachment
  pub queued : List (ℕ × ℕ)
  pub warnings : List (String × Refusal)

pub data Answer : Type 0 where
  pane : Ticket → Answer
  not_found forbidden already_assigned unknown_agent unknown_category empty_reply empty_note :
      Answer
  cannot_move : Status → Requested → Answer

-- `Ticket.objects.for_user(user)`, with the reference
abbrev pub in_scope : User → Ticket → Bool
in_scope user t =
    same_id (some t.department) user.department
    && (same_id (some t.branch) user.branch && not (is_some t.deleted_at))

unfoldable pub find_for_user : User → String → Desk → Option Ticket
find_for_user user reference d =
    first (λ (t : Ticket). in_scope user t && str_eq t.reference reference) d.tickets

abbrev pub save_ticket : ℕ → (Ticket → Ticket) → Desk → Desk
save_ticket pk f d = record d { tickets = update_where (λ (t : Ticket). t.pk == pk) f d.tickets }

abbrev pub or_not_found : Option Ticket → (Ticket → Desk → Answer × Desk) → Desk → Answer × Desk
or_not_found none action d = (not_found, d)
or_not_found (some t) action d = action t d

-- `take`
abbrev pub assigned : ℕ → Ticket → Ticket
assigned user t = record t { assigned_to = some user }

abbrev pub take_from : User → Option ℕ → Ticket → Desk → Answer × Desk
take_from user none t d = (pane (assigned user.pk t), save_ticket t.pk (assigned user.pk) d)
take_from user (some holder) t d = (if holder == user.pk then pane t else already_assigned, d)

unfoldable pub take : User → String → Desk → Answer × Desk
unfolding find_for_user
take user reference d =
    or_not_found (find_for_user user reference d) (λ t. take_from user t.assigned_to t) d

-- `assign`; an identifier that is missing or unusable is none.
abbrev pub is_administrator : Role → Bool
is_administrator agent = false
is_administrator supervisor = false
is_administrator administrator = true

abbrev pub is_agent_for : Ticket → ℕ → User → Bool
is_agent_for t pk u =
    u.pk == pk
    && (same_id u.department (some t.department)
        && (same_id u.branch (some t.branch) && u.is_active))

abbrev pub find_agent : Ticket → Option ℕ → List User → Option User
find_agent t none users = none
find_agent t (some pk) users = first (is_agent_for t pk) users

abbrev pub assign_to : Option User → Ticket → Desk → Answer × Desk
assign_to none t d = (unknown_agent, d)
assign_to (some u) t d = (pane (assigned u.pk t), save_ticket t.pk (assigned u.pk) d)

unfoldable pub assign : User → String → Option ℕ → Desk → Answer × Desk
unfolding find_for_user
assign user reference wanted d =
    if is_administrator user.role
    then or_not_found (find_for_user user reference d)
        (λ t. assign_to (find_agent t wanted d.users) t) d
    else (forbidden, d)

-- `status`
abbrev pub moved : Result (Ticket × List Field) → Ticket → Desk → Answer × Desk
moved (invalid current requested) t d = (cannot_move current requested, d)
moved (ok (t', fields)) t d = (pane t', save_ticket t.pk (save fields t') d)

unfoldable pub status : User → String → Requested → Desk → Answer × Desk
unfolding find_for_user apply_transition save
status user reference requested d =
    or_not_found (find_for_user user reference d)
      (λ t. moved (apply_transition d.now t requested) t) d

-- `fields`; a priority that is no value of the type is ignored.
abbrev pub with_priority : Option Priority → Ticket → Ticket
with_priority none t = t
with_priority (some p) t = record t { priority = p }

abbrev pub find_category : Ticket → Option ℕ → List Category → Option Category
find_category t none rows = none
find_category t (some pk) rows =
    first (λ (c : Category). c.pk == pk && c.department == t.department) rows

abbrev pub with_category : Category → Ticket → Ticket
with_category c t = record t { category = c.pk }

abbrev pub set_category : Option Priority → Option Category → Ticket → Desk → Answer × Desk
set_category p none t d = (unknown_category, d)
set_category p (some c) t d =
    let change = λ (u : Ticket). with_category c (with_priority p u) in
    (pane (change t), save_ticket t.pk change d)

abbrev pub set_fields : Option Priority → Option (Option ℕ) → Ticket → Desk → Answer × Desk
set_fields p none t d = (pane (with_priority p t), save_ticket t.pk (with_priority p) d)
set_fields p (some wanted) t d = set_category p (find_category t wanted d.categories) t d

unfoldable pub fields : User → String → Option Priority → Option (Option ℕ) → Desk → Answer × Desk
unfolding find_for_user
fields user reference p wanted d =
    or_not_found (find_for_user user reference d) (set_fields p wanted) d

-- `reply` and `note`
abbrev pub new_message :
    Visibility → Channel → DeliveryStatus → User → String → Ticket → Desk → Message
new_message visibility channel delivery user body t d = record {
  pk = d.next_pk;
  ticket = t.pk;
  author = some user.pk;
  direction = outbound;
  visibility = visibility;
  channel = channel;
  body = body;
  delivery_status = delivery;
  delivery_error = "";
  external_id = "";
  created_at = d.now;
}

abbrev pub add_message : Message → Desk → Desk
add_message m d = record d { messages = d.messages ++ m ∷ []; next_pk = d.next_pk + 1 }

-- The stamp of the first answer, and the move from NEW to OPEN.
abbrev pub stamp_response : ℕ → Option ℕ → Ticket → Ticket
stamp_response now none t = record t { first_response_at = some now }
stamp_response now (some at) t = t

abbrev pub open_new : Status → Ticket → Ticket
open_new new t = record t { status = opened }
open_new _ t = t

abbrev pub answered : ℕ → Ticket → Ticket
answered now t = open_new t.status (stamp_response now t.first_response_at t)

abbrev pub attach_files : ℕ → User → Ticket → List Upload → Desk → Desk
attach_files message user t files d =
    let r =
      attach d.lower d.max_bytes (of_message message) (some user.pk) t.department t.branch files in
    record d { attachments = d.attachments ++ r.0; warnings = d.warnings ++ r.1 }

-- A broker that does not answer is logged, and the reply stays.
abbrev pub queue_delivery : ℕ → User → Desk → Desk
queue_delivery message user d =
    if d.broker_answers then record d { queued = d.queued ++ (message, user.pk) ∷ [] } else d

abbrev pub reply_on : User → String → List Upload → Ticket → Desk → Answer × Desk
reply_on user body files t d = if is_empty body then (empty_reply, d) else (
  pane (answered d.now t),
  attach_files d.next_pk user t files (
      queue_delivery d.next_pk user (
        save_ticket t.pk (answered d.now)
          (add_message (new_message shared email pending user body t d) d))),
)

unfoldable pub reply : User → String → String → List Upload → Desk → Answer × Desk
unfolding find_for_user strip attach
reply user reference text files d =
    or_not_found (find_for_user user reference d) (reply_on user (strip text) files) d

abbrev pub note_on : User → String → List Upload → Ticket → Desk → Answer × Desk
note_on user body files t d = if is_empty body then (empty_note, d) else (
  pane t,
  attach_files d.next_pk user t files
      (add_message (new_message internal t.origin_channel not_applicable user body t d) d),
)

unfoldable pub note : User → String → String → List Upload → Desk → Answer × Desk
unfolding find_for_user strip attach
note user reference text files d =
    or_not_found (find_for_user user reference d) (note_on user (strip text) files) d
