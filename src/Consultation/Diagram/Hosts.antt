-- ===== src/Consultation/Diagram/Hosts.antt =====
-- What hosts do to a slot follows an edge of its diagram.
use spottex_test.Common.{
  find_many, update_where, not, is_some, Gives, row_key, row_append_none, row-append, ◌⊎◌, ◌||◌, ℕ,
  ◌≤◌, ◌≡◌, refl, sym, subst, ◌∙◌, Bool, true, false, ◌&&◌, some, none, List, [], ◌∷◌, ◌++◌, ◌==◌,
  inl, inr, Bool-cases, Option-cases, count_where, find_first, arith, row_update_other,
  row_update_hit, if◌then◌else◌, ==→eq, find_first_holds, row-find_first, ==_refl, Option,
}
use spottex_test.Consultation.Model.{SlotStatus, held, booked, Slot, Booking, Desk, is_open_slot}
use spottex_test.Consultation.Agrees.Base.{slot_at}
use spottex_test.Consultation.Holding.{block_slot}
use spottex_test.Consultation.Slots.{
  is_blocked, is_canceled_slot, create_many, new_slot, add_slot, patch_slot, find_removable,
  write_removal, removable, closable, close_booking, Outcome,
}
use spottex_test.Consultation.Slots.{insert_slot, collides, same_start, patchable, cancel_slot}
use spottex_test.Consultation.Model.{open_slot, blocked, canceled_slot}
use spottex_test.Consultation.Diagram.Edges.{
  ◌↝◌, stays, offered, withdrawn, withdrawn_shut, shut, opened, deleted_open, deleted_shut,
  deleted_canceled, status_at, Follows, update-Follows, to_shut,
}
use spottex_test.Consultation.Agrees.Offered.{row_removed}
use spottex_test.Consultation.Calendar.Google.{Interval}

pub block_slot-Follows : (id : ℕ) (d : Desk) → Follows d.slots (block_slot id d).slots
unfolding block_slot
block_slot-Follows id d =
    update-Follows (λ x. x.id == id && is_open_slot x.status) (λ x. record x { status = blocked })
      d.slots (λ x. refl) (λ x h. to_shut x.status (ground arith))

to_inserted :
    (i host start finish n : ℕ) (xs : List Slot)
    → (status_at i (xs ++ new_slot n host start finish ∷ []) ≡ status_at i xs)
      ⊎ ((status_at i xs ≡ none)
          × (status_at i (xs ++ new_slot n host start finish ∷ []) ≡ some open_slot))
to_inserted i host start finish n xs = elim (Option-cases (slot_at i xs)) [
  | inr (x, e) ↦
      inl (rw (row-append (λ (x : Slot). x.id) i xs (new_slot n host start finish) x e, e) refl)
  | inl e ↦ elim (Bool-cases (n == i)) [
    | inl f ↦ inr (
      rw e refl,
      rw (row_append_none (λ (x : Slot). x.id) i xs (new_slot n host start finish) e, f) refl,
    )
    | inr f ↦
        inl (
          rw (row_append_none (λ (x : Slot). x.id) i xs (new_slot n host start finish) e, f, e)
            refl)
  ]
]

insert_more :
    {s t u : Option SlotStatus}
    → (u ≡ t) ⊎ ((t ≡ none) × (u ≡ some open_slot))
    → (t ≡ s) ⊎ ((s ≡ none) × (t ≡ some open_slot))
    → (u ≡ s) ⊎ ((s ≡ none) × (u ≡ some open_slot))
insert_more (inl e) (inl f) = inl (e ∙ f)
insert_more (inl e) (inr (f, g)) = inr (f, e ∙ g)
insert_more (inr (e, f)) (inl g) = inr (sym g ∙ e, f)
insert_more (inr (e, f)) (inr (g, h)) = inr (g, f)

many_inserted :
    (i host : ℕ) (is : List Interval) (d : Desk)
    → (status_at i (create_many host is d).slots ≡ status_at i d.slots)
      ⊎ ((status_at i d.slots ≡ none)
          × (status_at i (create_many host is d).slots ≡ some open_slot))
unfolding create_many
many_inserted i host [] d = inl refl
many_inserted i host (j ∷ js) d =
    elim (Bool-cases (count_where (same_start host j.start) d.slots == 0)) [
      | inr e ↦ rw (create_many, e) (many_inserted i host js d)
      | inl e ↦
          rw (create_many, e)
            (insert_more (many_inserted i host js (insert_slot host j.start j.finish d))
              (to_inserted i host j.start j.finish d.next_slot d.slots))
    ]

edge_inserted : (s t : Option SlotStatus) → (t ≡ s) ⊎ ((s ≡ none) × (t ≡ some open_slot)) → s ↝ t
edge_inserted s t (inl e) = subst (λ u. s ↝ u) (sym e) stays
edge_inserted s t (inr (e, f)) = rw (e, f) offered

pub create_many-Follows :
    (host : ℕ) (is : List Interval) (d : Desk) → Follows d.slots (create_many host is d).slots
create_many-Follows host is d i = edge_inserted _ _ (many_inserted i host is d)

pub add_slot-Follows :
    (host start finish : ℕ) (d : Desk) → Follows d.slots (add_slot host start finish d).1.slots
unfolding add_slot
add_slot-Follows host start finish d =
    elim (Bool-cases (count_where (collides host start finish) d.slots == 0)) [
      | inl e ↦ elim (Bool-cases (count_where (same_start host start) d.slots == 0)) [
        | inl f ↦
            rw (add_slot, e, f)
              (λ i. edge_inserted _ _ (to_inserted i host start finish d.next_slot d.slots))
        | inr f ↦ rw (add_slot, e, f) (λ i. stays)
      ]
      | inr e ↦ rw (add_slot, e) (λ i. stays)
    ]

to_patched :
    (s : SlotStatus) (opens : Bool)
    → (is_open_slot s || is_blocked s) ≡ true
    → some s ↝ some (if opens then open_slot else blocked)
to_patched open_slot true h = stays
to_patched open_slot false h = shut
to_patched blocked true h = opened
to_patched blocked false h = stays
to_patched held opens h = cc
to_patched booked opens h = cc
to_patched canceled_slot opens h = cc

pub patch_slot-Follows :
    (host id : ℕ) (opens : Bool) (d : Desk) → Follows d.slots (patch_slot host id opens d).1.slots
unfolding patch_slot
patch_slot-Follows host id opens d =
    elim (Bool-cases (count_where (patchable host id) d.slots == 0)) [
      | inl e ↦ rw (patch_slot, e) (λ i. stays)
      | inr e ↦
          rw (patch_slot, e)
            (update-Follows (patchable host id)
              (λ x. record x { status = if opens then open_slot else blocked }) d.slots (λ x. refl)
              (λ x h. to_patched x.status opens (ground arith)))
    ]

to_canceled :
    (s : SlotStatus)
    → (is_open_slot s || is_blocked s || is_canceled_slot s) ≡ true
    → (some s ↝ some canceled_slot) × (some s ↝ none)
to_canceled open_slot h = (withdrawn, deleted_open)
to_canceled blocked h = (withdrawn_shut, deleted_shut)
to_canceled canceled_slot h = (stays, deleted_canceled)
to_canceled held h = cc
to_canceled booked h = cc

abbrev HasUniqueIds : Desk → Type 0
HasUniqueIds d = (i : ℕ) → count_where (λ (x : Slot). x.id == i) d.slots ≤ 1

removed-Follows :
    (id : ℕ) (x : Slot) (d : Desk)
    → slot_at id d.slots ≡ some x
    → (some x.status ↝ none)
    → Follows d.slots (find_many (λ y. not (y.id == id)) d.slots)
removed-Follows id x d at edge i = elim (Bool-cases (i == id)) [
  | inl g ↦ rw (row_removed id i d.slots, g, ==→eq i id g, at) edge
  | inr g ↦ rw (row_removed id i d.slots, g) stays
]

canceled-Follows :
    (id : ℕ) (x : Slot) (d : Desk)
    → slot_at id d.slots ≡ some x
    → (some x.status ↝ some canceled_slot)
    → Follows d.slots (update_where (λ y. y.id == id) cancel_slot d.slots)
canceled-Follows id x d at edge i =
    let key = λ (x : Slot). x.id in
    let hit : (x.id == id) ≡ true = rw (row_key key id d.slots at) (==_refl id) in
    elim (Bool-cases (i == id)) [
      | inl g ↦
          rw
            (
              ==→eq i id g,
              row_update_hit key id (λ y. y.id == id) cancel_slot (λ y. refl) d.slots x at hit,
              at,
            )
            edge
      | inr g ↦
          rw
            (row_update_other key id i (λ y. y.id == id) cancel_slot (λ y. refl) (λ y h. h) d.slots
              g)
            stays
    ]

pub write_removal-Follows :
    (host id n : ℕ) (d : Desk)
    → is_some (find_removable host id d) ≡ true
    → HasUniqueIds d
    → Gives (λ e. Follows d.slots e.slots) (write_removal id n d)
unfolding find_removable write_removal
write_removal-Follows host id n d may unique =
    elim (Option-cases (find_first (removable host id) d.slots)) [
      | inl e ↦ absurd (ground arith)
      | inr (x, e) ↦
          let key = λ (x : Slot). x.id in
          let holds = find_first_holds (removable host id) d.slots x e in
          let named = ==→eq x.id id (ground arith) in
          let at =
            subst (λ n. slot_at n d.slots ≡ some x) named
              (row-find_first key (removable host id) d.slots x (unique x.id) e) in
          let edges = to_canceled x.status (ground arith) in
          elim (Bool-cases (count_where (λ (y : Slot). y.id == id) d.slots == 0)) [
            | inl f ↦ rw (write_removal, f) tt
            | inr f ↦ elim (Bool-cases (n == 0)) [
              | inr g ↦ rw (write_removal, f, g) (canceled-Follows id x d at edges.0)
              | inl g ↦
                  elim (Bool-cases
                    (count_where (λ (b : Booking). b.slot_id == id) d.bookings == 0)) [
                      | inl h ↦ rw (write_removal, f, g, h) (removed-Follows id x d at edges.1)
                      | inr h ↦ rw (write_removal, f, g, h) tt
                    ]
            ]
          ]
    ]

pub close_booking-Follows :
    (now host id : ℕ) (outcome : Outcome) (d : Desk)
    → Follows d.slots (close_booking now host id outcome d).1.slots
unfolding close_booking
close_booking-Follows now host id outcome d =
    elim (Option-cases (find_first (closable now host id d.slots) d.bookings)) [
      | inl e ↦ rw (close_booking, e) (λ i. stays)
      | inr (b, e) ↦ rw (close_booking, e) (λ i. stays)
    ]
