-- ===== src/Intake/Linking/History.antt =====
-- About apps/customers/services/linking.py: which organization a ticket is attributed to, after any
-- number of links.
use azm_crm.Prelude.{
  ℕ, Option, none, some, Bool, true, false, ◌&&◌, ◌==◌, ◌≡◌, refl, sym, ap, ◌∙◌, List, [], ◌∷◌, map,
  if◌then◌else◌, update_where, Bool-cases, inl, inr,
}
use azm_crm.Tickets.Model.{Ticket}
use azm_crm.Intake.Office.{Office, Person}
use azm_crm.Intake.Linking.{has_row, is_unattributed, of_organization, under, linked, link_contact}

-- A link that raises leaves the rows as they were.
abbrev after : Option (Person × (ℕ × Office)) → Office → Office
after none o = o
after (some (p, (n, o'))) o = o'

abbrev pub link_all : List (Person × ℕ) → Office → Office
link_all [] o = o
link_all ((contact, organization) ∷ links) o =
    link_all links (after (link_contact contact organization o) o)

-- The first link of a ticket's own contact, among those whose contact has a row.
abbrev pub settled : List Person → List (Person × ℕ) → Ticket → Ticket
settled rows [] t = t
settled rows ((contact, organization) ∷ links) t =
    let later = settled rows links t in
    if is_unattributed contact.pk t && has_row contact.pk rows then under organization t else later

settled-attributed :
    (rows : List Person) (links : List (Person × ℕ)) (t : Ticket) (organization : ℕ)
    → settled rows links (under organization t) ≡ under organization t
settled-attributed rows [] t organization = refl
settled-attributed rows ((c, k) ∷ links) t organization = elim (Bool-cases (t.contact == c.pk)) [
  | inl e ↦ rw e (settled-attributed rows links t organization)
  | inr e ↦ rw e (settled-attributed rows links t organization)
]

has_row-update_where :
    (pk organization contact : ℕ) (rows : List Person)
    → has_row pk
        (update_where (λ (p : Person). p.pk == contact) (of_organization organization) rows)
      ≡ has_row pk rows
has_row-update_where pk organization contact [] = refl
has_row-update_where pk organization contact (p ∷ rows) = elim (Bool-cases (p.pk == contact)) [
  | inl e ↦ rw (e, has_row-update_where pk organization contact rows)
  | inr e ↦ rw (e, has_row-update_where pk organization contact rows)
]

settled-alike :
    (rows rows' : List Person) (links : List (Person × ℕ)) (t : Ticket)
    → ((pk : ℕ) → has_row pk rows ≡ has_row pk rows')
    → settled rows links t ≡ settled rows' links t
settled-alike rows rows' [] t same = refl
settled-alike rows rows' ((c, k) ∷ links) t same =
    rw (same c.pk, settled-alike rows rows' links t same)

map-update_where :
    (p : Ticket → Bool) (u f g : Ticket → Ticket)
    → ((t : Ticket) → f (if p t then u t else t) ≡ g t)
    → (ts : List Ticket) → map f (update_where p u ts) ≡ map g ts
map-update_where p u f g each [] = refl
map-update_where p u f g each (t ∷ ts) = rw (each t, map-update_where p u f g each ts) refl

settled-linked :
    (rows rows' : List Person) (c : Person) (k : ℕ) (links : List (Person × ℕ)) (t : Ticket)
    → has_row c.pk rows ≡ true
    → ((pk : ℕ) → has_row pk rows' ≡ has_row pk rows)
    → settled rows' links (if is_unattributed c.pk t then under k t else t)
      ≡ settled rows ((c, k) ∷ links) t
settled-linked rows rows' c k links t there same = elim (Bool-cases (is_unattributed c.pk t)) [
  | inl e ↦ rw (e, there) (settled-attributed rows' links t k)
  | inr e ↦ rw e (settled-alike rows' rows links t same)
]

settled-unlinked :
    (rows : List Person) (c : Person) (k : ℕ) (links : List (Person × ℕ)) (t : Ticket)
    → has_row c.pk rows ≡ false
    → settled rows links t ≡ settled rows ((c, k) ∷ links) t
settled-unlinked rows c k links t e = elim (Bool-cases (is_unattributed c.pk t)) [
  | inl h ↦ rw (h, e) refl
  | inr h ↦ rw h refl
]

map-alike :
    (f g : Ticket → Ticket) → ((t : Ticket) → f t ≡ g t) → (ts : List Ticket) → map f ts ≡ map g ts
map-alike f g same [] = refl
map-alike f g same (t ∷ ts) = rw (same t, map-alike f g same ts) refl

map-settled_nothing : (rows : List Person) (ts : List Ticket) → map (settled rows []) ts ≡ ts
map-settled_nothing rows [] = refl
map-settled_nothing rows (t ∷ ts) = ap (◌∷◌ t) (map-settled_nothing rows ts)

link_contact-linked :
    (c : Person) (k : ℕ) (o : Office)
    → has_row c.pk o.persons ≡ true
    → after (link_contact c k o) o ≡ linked c.pk k o
unfolding link_contact
link_contact-linked c k o e = rw e refl

link_contact-raises :
    (c : Person) (k : ℕ) (o : Office)
    → has_row c.pk o.persons ≡ false
    → after (link_contact c k o) o ≡ o
unfolding link_contact
link_contact-raises c k o e = rw e refl

-- After any sequence of links, of any contacts to any organizations, the tickets stand where they
-- stood: one that had an organization, or was deleted, is unchanged; another is under the
-- organization of the first link of its contact that did not raise, or unchanged if there is
-- none.
pub link_all-settled :
    (links : List (Person × ℕ)) (o : Office)
    → (link_all links o).tickets ≡ map (settled o.persons links) o.tickets
link_all-settled [] o = sym (map-settled_nothing o.persons o.tickets)
link_all-settled ((c, k) ∷ links) o = elim (Bool-cases (has_row c.pk o.persons)) [
  | inl e ↦
      ap (λ o'. (link_all links o').tickets) (link_contact-linked c k o e)
      ∙ link_all-settled links (linked c.pk k o)
      ∙ map-update_where (is_unattributed c.pk) (under k) (settled (linked c.pk k o).persons links)
          _
          (λ t.
            settled-linked o.persons _ c k links t e
              (λ pk. has_row-update_where pk k c.pk o.persons))
          o.tickets
  | inr e ↦
      ap (λ o'. (link_all links o').tickets) (link_contact-raises c k o e)
      ∙ link_all-settled links o
      ∙ map-alike _ _ (λ t. settled-unlinked o.persons c k links t e) o.tickets
]
