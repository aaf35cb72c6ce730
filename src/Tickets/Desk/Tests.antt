-- ===== src/Tickets/Desk/Tests.antt =====
-- Two agents at one desk.
use azm_crm.Prelude.{none, some, true, [], ◌∷◌, ◌≡◌, refl, map}
use azm_crm.Chat.Model.{User, agent}
use azm_crm.Tickets.Model.{Ticket, normal, new, web_form}
use azm_crm.Tickets.Desk.{Desk, find_for_user, pane, assigned, save_ticket}
use azm_crm.Tickets.Desk.Scope.{reply, act, IsScoped, act-IsScoped}
use azm_crm.Tickets.Desk.Taking.{take_all, told, take_all-first}

abbrev huda : User
huda = record {
  pk = 11;
  role = agent;
  department = some 3;
  branch = some 4;
  is_active = true;
  full_name = "Huda";
}

abbrev omar : User
omar = record huda { pk = 12; full_name = "Omar" }

abbrev request : Ticket
request = record {
  pk = 9;
  reference = "AZM-2026-000009";
  organization = none;
  contact = 7;
  subject = "Printer";
  description = "";
  category = 2;
  priority = normal;
  status = new;
  assigned_to = none;
  origin_channel = web_form;
  first_response_at = none;
  resolved_at = none;
  department = 3;
  branch = 4;
  created_at = 50;
  deleted_at = none;
  deleted_by = none;
}

abbrev desk : Desk
desk = record {
  now = 100;
  next_pk = 20;
  lower = λ s. s;
  max_bytes = 1000;
  broker_answers = true;
  users = huda ∷ omar ∷ [];
  categories = [];
  tickets = request ∷ [];
  messages = [];
  attachments = [];
  queued = [];
  warnings = [];
}

seen : find_for_user huda "AZM-2026-000009" desk ≡ some request
unfolding find_for_user
seen = refl

act-IsScoped_example :
    IsScoped huda "AZM-2026-000009" desk
      (act huda "AZM-2026-000009" (reply "We are on it." []) desk)
act-IsScoped_example = act-IsScoped huda "AZM-2026-000009" (reply "We are on it." []) desk

take_all-first_example : take_all (huda ∷ omar ∷ []) "AZM-2026-000009" desk ≡ (
  pane (assigned 11 request) ∷ map (told huda request) (omar ∷ []),
  save_ticket 9 (assigned 11) desk,
)
take_all-first_example =
    take_all-first huda (omar ∷ []) "AZM-2026-000009" desk request seen refl ((refl, refl), tt)
