-- ===== src/Tickets/Visibility.antt =====
-- apps/tickets/services/visibility.py: which messages a customer may read.
pub mod Boundary
use azm_crm.Core.Text.{is_empty, contains}
use azm_crm.Prelude.{
  ℕ, String, Bool, true, false, not, any, ◌&&◌, ◌==◌, List, [], ◌∷◌, if◌then◌else◌, leb, keep,
}
use azm_crm.Tickets.Model.{Ticket, Message, Visibility, shared, internal}

abbrev pub is_public : Visibility → Bool
is_public shared = true
is_public internal = false

abbrev pub place : Message → List Message → List Message
place m [] = m ∷ []
place m (n ∷ ns) =
    let rest = n ∷ place m ns in if leb m.created_at n.created_at then m ∷ n ∷ ns else rest

-- `order_by("created_at")`, rows of one moment as the table has them.
unfoldable pub by_created : List Message → List Message
by_created [] = []
by_created (m ∷ ms) = place m (by_created ms)

unfoldable pub public_messages_for : ℕ → List Message → List Message
unfolding by_created
public_messages_for ticket rows =
    by_created (keep (λ m. m.ticket == ticket && is_public m.visibility) rows)

unfoldable pub staff_messages_for : ℕ → List Message → List Message
unfolding by_created
staff_messages_for ticket rows = by_created (keep (λ m. m.ticket == ticket) rows)

-- The narrow part of a template's context; what a caller adds stands beside it.
pub record Context {ℓ} (E : Type ℓ) : Type ℓ where
  pub reference : String
  pub subject : String
  pub public_messages : List Message
  pub extra : E

unfoldable pub customer_facing_context {ℓ} : {E : Type ℓ} → Ticket → List Message → E → Context E
unfolding public_messages_for
customer_facing_context t rows extra = record {
  reference = t.reference;
  subject = t.subject;
  public_messages = public_messages_for t.pk rows;
  extra = extra;
}

abbrev pub is_internal : Visibility → Bool
is_internal shared = false
is_internal internal = true

abbrev pub shows : String → Message → Bool
shows rendered m = not (is_empty m.body) && contains m.body rendered

unfoldable pub contains_internal_content : String → ℕ → List Message → Bool
unfolding contains
contains_internal_content rendered ticket rows =
    any (shows rendered) (keep (λ m. m.ticket == ticket && is_internal m.visibility) rows)
