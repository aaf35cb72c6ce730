-- ===== src/Tickets/Visibility/Boundary.antt =====
-- About apps/tickets/services/visibility.py: what the two views of a thread hold, and their order.
use azm_crm.Prelude.{
  ℕ, ◌≤◌, Bool, true, ◌&&◌, ◌==◌, List, [], ◌∷◌, leb, keep, ◌≡◌, ap, arith, All, Bool-cases, inl,
  inr, ◌↔◌, ◌⊎◌,
}
use azm_crm.Tickets.Model.{Message, shared}
use azm_crm.Tickets.Visibility.{
  is_public, place, by_created, public_messages_for, staff_messages_for,
}

-- A message stands in a thread.
abbrev pub Holds : Message → List Message → Type 0
Holds m [] = ⊥
Holds m (n ∷ ns) = (n ≡ m) ⊎ Holds m ns

swap_in :
    (m n k : Message) (ns : List Message)
    → (Holds m (place n ns) → Holds m (n ∷ ns))
    → Holds m (k ∷ place n ns)
    → Holds m (n ∷ k ∷ ns)
swap_in m n k ns f (inl e) = inr (inl e)
swap_in m n k ns f (inr h) = elim (f h) [ inl e ↦ inl e | inr g ↦ inr (inr g) ]

swap_out :
    (m n k : Message) (ns : List Message)
    → (Holds m (n ∷ ns) → Holds m (place n ns))
    → Holds m (n ∷ k ∷ ns)
    → Holds m (k ∷ place n ns)
swap_out m n k ns f (inl e) = inr (f (inl e))
swap_out m n k ns f (inr (inl e)) = inl e
swap_out m n k ns f (inr (inr h)) = inr (f (inr h))

Holds-place : (m n : Message) (ns : List Message) → Holds m (place n ns) ↔ Holds m (n ∷ ns)
Holds-place m n [] = (λ h. h, λ h. h)
Holds-place m n (k ∷ ns) = elim (Bool-cases (leb n.created_at k.created_at)) [
  | inl e ↦ rw e (λ h. h, λ h. h)
  | inr e ↦ rw e (swap_in m n k ns (Holds-place m n ns).0, swap_out m n k ns (Holds-place m n ns).1)
]

Holds-by_created : (m : Message) (ns : List Message) → Holds m (by_created ns) ↔ Holds m ns
unfolding by_created
Holds-by_created m [] = (λ h. h, λ h. h)
Holds-by_created m (n ∷ ns) =
    let inner = Holds-by_created m ns in
    let outer = Holds-place m n (by_created ns) in
    (
      λ h. elim (outer.0 h) [ inl e ↦ inl e | inr g ↦ inr (inner.0 g) ],
      λ h. outer.1 (elim h [ inl e ↦ inl e | inr g ↦ inr (inner.1 g) ]),
    )

Holds-keep :
    (p : Message → Bool) (m : Message) (ns : List Message)
    → Holds m (keep p ns) ↔ (Holds m ns × (p m ≡ true))
Holds-keep p m [] = (λ h. absurd h, λ h. h.0)
Holds-keep p m (n ∷ ns) =
    let inner = Holds-keep p m ns in
    elim (Bool-cases (p n)) [
      | inl e ↦ rw e (
        λ h. elim h [ inl q ↦ (inl q, rw (← q) e) | inr g ↦ (inr (inner.0 g).0, (inner.0 g).1) ],
        λ h. elim h.0 [ inl q ↦ inl q | inr g ↦ inr (inner.1 (g, h.1)) ],
      )
      | inr e ↦ rw e (
        λ h. (inr (inner.0 h).0, (inner.0 h).1),
        λ h. elim h.0 [ inl q ↦ absurd (cc (ap p q, e, h.1)) | inr g ↦ inner.1 (g, h.1) ],
      )
    ]

passes_iff :
    (ticket : ℕ) (m : Message)
    → ((m.ticket == ticket && is_public m.visibility) ≡ true)
      ↔ ((m.ticket ≡ ticket) × (m.visibility ≡ shared))
passes_iff ticket m = (λ h. ground arith, λ h. ground arith)

-- `public_messages_for` gives a message exactly when it is a row, is on the ticket asked for, and
-- is public.
pub public_messages_for_exactly :
    (ticket : ℕ) (rows : List Message) (m : Message)
    → Holds m (public_messages_for ticket rows)
      ↔ (Holds m rows × (m.ticket ≡ ticket) × (m.visibility ≡ shared))
unfolding public_messages_for
public_messages_for_exactly ticket rows m =
    let p = λ (n : Message). n.ticket == ticket && is_public n.visibility in
    let sorted = Holds-by_created m (keep p rows) in
    let kept = Holds-keep p m rows in
    let passes = passes_iff ticket m in
    (
      λ h. (
        (kept.0 (sorted.0 h)).0,
        (passes.0 (kept.0 (sorted.0 h)).1).0,
        (passes.0 (kept.0 (sorted.0 h)).1).1,
      ),
      λ h. sorted.1 (kept.1 (h.0, passes.1 (h.1, h.2))),
    )

-- Oldest first.
abbrev pub IsOldestFirst : List Message → Type 0
IsOldestFirst [] = Unit
IsOldestFirst (m ∷ ms) = All (λ n. m.created_at ≤ n.created_at) ms × IsOldestFirst ms

All-place {κ} :
    (P : Message → Type κ) (m : Message) (ms : List Message) → P m → All P ms → All P (place m ms)
All-place P m [] h k = (h, tt)
All-place P m (n ∷ ms) h k = ground (arith, All-place P m ms h k.1)

All-older :
    (a b : ℕ) (ms : List Message)
    → a ≤ b
    → All (λ (n : Message). b ≤ n.created_at) ms
    → All (λ (n : Message). a ≤ n.created_at) ms
All-older a b [] le h = tt
All-older a b (m ∷ ms) le h = (omega arith, All-older a b ms le h.1)

IsOldestFirst-place :
    (m : Message) (ms : List Message) → IsOldestFirst ms → IsOldestFirst (place m ms)
IsOldestFirst-place m [] h = (tt, tt)
IsOldestFirst-place m (n ∷ ms) h = elim (Bool-cases (leb m.created_at n.created_at)) [
  | inl e ↦ rw e ((ground arith, All-older m.created_at n.created_at ms (ground arith) h.0), h)
  | inr e ↦ rw e (
    All-place (λ k. n.created_at ≤ k.created_at) m ms (ground arith) h.0,
    IsOldestFirst-place m ms h.1,
  )
]

-- Both threads, the customer's and the staff's, are in the order in which they were written.
by_created-IsOldestFirst : (ms : List Message) → IsOldestFirst (by_created ms)
unfolding by_created
by_created-IsOldestFirst [] = tt
by_created-IsOldestFirst (m ∷ ms) =
    IsOldestFirst-place m (by_created ms) (by_created-IsOldestFirst ms)

-- Both the customer's view of a thread and the staff's are in order of creation, oldest first.
pub threads-IsOldestFirst :
    (ticket : ℕ) (rows : List Message)
    → IsOldestFirst (public_messages_for ticket rows)
      × IsOldestFirst (staff_messages_for ticket rows)
unfolding public_messages_for staff_messages_for
threads-IsOldestFirst ticket rows = (
  by_created-IsOldestFirst (keep (λ m. m.ticket == ticket && is_public m.visibility) rows),
  by_created-IsOldestFirst (keep (λ m. m.ticket == ticket) rows),
)
