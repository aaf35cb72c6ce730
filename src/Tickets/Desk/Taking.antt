-- ===== src/Tickets/Desk/Taking.antt =====
-- About `take` of apps/tickets/views.py: a ticket that several agents reach for at once.
use azm_crm.Prelude.{
  ℕ, String, Option, none, some, Bool, true, false, ◌&&◌, List, [], ◌∷◌, first, ◌==◌, ==_refl,
  same_id, not, is_some, update_where, if◌then◌else◌, ◌≡◌, refl, ap, ◌∙◌, Bool-cases, inl, inr, All,
  map,
}
use text.Mathlib.Text.{◌==◌ as str_eq}
use azm_crm.Chat.Model.{User}
use azm_crm.Tickets.Model.{Ticket}
use azm_crm.Tickets.Desk.{
  Desk, Answer, pane, already_assigned, in_scope, find_for_user, save_ticket, assigned, take,
}

first-update_where :
    (p : Ticket → Bool) (k : ℕ) (f : Ticket → Ticket) (ts : List Ticket) (t : Ticket)
    → ((u : Ticket) → p (f u) ≡ p u)
    → first p ts ≡ some t
    → first p (update_where (λ (u : Ticket). u.pk == k) f ts) ≡ some (if t.pk == k then f t else t)
first-update_where p k f [] t same e = absurd (cc)
first-update_where p k f (u ∷ us) t same e = elim (Bool-cases (p u)) [
  | inl h ↦
      let found : some u ≡ some t = rw h at e in
      here (u.pk == k) h
      ∙ ap
          (λ (o : Option Ticket). elim o [
            | none ↦ none
            | some v ↦ some (if v.pk == k then f v else v)
          ])
          found
  | inr h ↦ there (u.pk == k) h ∙ first-update_where p k f us t same (rw h at e)
]
  where
    here :
        (b : Bool)
        → p u ≡ true
        → first p ((if b then f u else u) ∷ update_where (λ (v : Ticket). v.pk == k) f us)
          ≡ some (if b then f u else u)
    here true h = rw (same u, h) refl
    here false h = rw h refl

    there :
        (b : Bool)
        → p u ≡ false
        → first p ((if b then f u else u) ∷ update_where (λ (v : Ticket). v.pk == k) f us)
          ≡ first p (update_where (λ (v : Ticket). v.pk == k) f us)
    there true h = rw (same u, h) refl
    there false h = rw h refl

-- Two members of one department and branch.
abbrev pub Colleague : User → User → Type 0
Colleague u v = (v.department ≡ u.department) × (v.branch ≡ u.branch)

find_for_user-assigned :
    (u v : User) (reference : String) (d : Desk) (t : Ticket)
    → Colleague u v
    → find_for_user u reference d ≡ some t
    → find_for_user v reference (save_ticket t.pk (assigned u.pk) d) ≡ some (assigned u.pk t)
unfolding find_for_user
find_for_user-assigned u v reference d t c found =
    let theirs : find_for_user v reference d ≡ some t =
      (λ i.
        first
          (λ (x : Ticket).
            same_id (some x.department) (c.0 i)
            && (same_id (some x.branch) (c.1 i) && not (is_some x.deleted_at))
            && str_eq x.reference reference)
          d.tickets)
      ∙ found in
    first-update_where (λ x. in_scope v x && str_eq x.reference reference) t.pk (assigned u.pk)
      d.tickets t (λ x. refl) theirs
    ∙ rw (==_refl t.pk) refl

-- The answers to a list of agents who take a ticket one after another.
abbrev pub take_all : List User → String → Desk → List Answer × Desk
take_all [] reference d = ([], d)
take_all (v ∷ vs) reference d =
    let (answer, d') = take v reference d in
    let (answers, d'') = take_all vs reference d' in (answer ∷ answers, d'')

abbrev pub told : User → Ticket → User → Answer
told u t v = if u.pk == v.pk then pane (assigned u.pk t) else already_assigned

take_late :
    (u : User) (reference : String) (d : Desk) (t : Ticket) (vs : List User)
    → All (Colleague u) vs
    → find_for_user u reference d ≡ some t
    → take_all vs reference (save_ticket t.pk (assigned u.pk) d)
      ≡ (map (told u t) vs, save_ticket t.pk (assigned u.pk) d)
unfolding take
take_late u reference d t [] h found = refl
take_late u reference d t (v ∷ vs) h found =
    rw (find_for_user-assigned u v reference d t h.0 found) (λ i. (
      told u t v ∷ (take_late u reference d t vs h.1 found i).0,
      (take_late u reference d t vs h.1 found i).1,
    ))

-- When members of one department and branch take an unassigned ticket one after another, the
-- first is assigned; each of the others is told that it is assigned already, or shown the ticket
-- if they are the first once more, and changes nothing.
pub take_all-first :
    (u : User) (vs : List User) (reference : String) (d : Desk) (t : Ticket)
    → find_for_user u reference d ≡ some t
    → t.assigned_to ≡ none
    → All (Colleague u) vs
    → take_all (u ∷ vs) reference d
      ≡ (pane (assigned u.pk t) ∷ map (told u t) vs, save_ticket t.pk (assigned u.pk) d)
unfolding take
take_all-first u vs reference d t found open_to h =
    rw (found, open_to)
      (λ i. (
        pane (assigned u.pk t) ∷ (take_late u reference d t vs h found i).0,
        (take_late u reference d t vs h found i).1,
      ))
