-- ===== src/Consultation/Diagram/Edges.antt =====
-- The states of one slot and the edges between them.
use spottex_test.Common.{
  ℕ, ◌≡◌, Bool, true, some, none, List, inl, inr, Bool-cases, Option-cases, update_where,
  row-update_where, Option,
}
use spottex_test.Consultation.Model.{
  SlotStatus, held, booked, Slot, is_held, is_booked, is_open_slot,
}
use spottex_test.Consultation.Agrees.Base.{slot_at}
use spottex_test.Consultation.Model.{open_slot, blocked, canceled_slot}

-- The diagram: `none` is a slot that is not there.
infix 20 ◌↝◌
pub data ◌↝◌ : Option SlotStatus → Option SlotStatus → Type 0 where
  stays : {s : Option SlotStatus} → s ↝ s
  offered : none ↝ some open_slot
  taken_by_guest : some open_slot ↝ some held
  let_go : some held ↝ some open_slot
  verified : some held ↝ some booked
  found_busy : some held ↝ some blocked
  moved_here : some open_slot ↝ some booked
  freed : some booked ↝ some open_slot
  shut : some open_slot ↝ some blocked
  opened : some blocked ↝ some open_slot
  withdrawn : some open_slot ↝ some canceled_slot
  withdrawn_shut : some blocked ↝ some canceled_slot
  deleted_open : some open_slot ↝ none
  deleted_shut : some blocked ↝ none
  deleted_canceled : some canceled_slot ↝ none

abbrev status_of_slot : Option Slot → Option SlotStatus
status_of_slot none = none
status_of_slot (some x) = some x.status

abbrev pub status_at : ℕ → List Slot → Option SlotStatus
status_at i xs = status_of_slot (slot_at i xs)

abbrev pub Follows : List Slot → List Slot → Type 0
Follows xs ys = (i : ℕ) → status_at i xs ↝ status_at i ys

pub update-Follows :
    (p : Slot → Bool) (f : Slot → Slot) (xs : List Slot)
    → ((x : Slot) → (f x).id ≡ x.id)
    → ((x : Slot) → p x ≡ true → some x.status ↝ some (f x).status)
    → Follows xs (update_where p f xs)
update-Follows p f xs keep edge i =
    let after = row-update_where (λ (x : Slot). x.id) p f keep i xs in
    elim (Option-cases (slot_at i xs)) [
      | inl e ↦ rw (after, e) stays
      | inr (x, e) ↦ elim (Bool-cases (p x)) [
        | inl h ↦ rw (after, e, h) (edge x h)
        | inr h ↦ rw (after, e, h) stays
      ]
    ]

pub to_open : (s : SlotStatus) → is_held s ≡ true → some s ↝ some open_slot
to_open held h = let_go
to_open open_slot h = cc
to_open booked h = cc
to_open blocked h = cc
to_open canceled_slot h = cc

pub to_held : (s : SlotStatus) → is_open_slot s ≡ true → some s ↝ some held
to_held open_slot h = taken_by_guest
to_held held h = cc
to_held booked h = cc
to_held blocked h = cc
to_held canceled_slot h = cc

pub to_booked : (s : SlotStatus) → is_held s ≡ true → some s ↝ some booked
to_booked held h = verified
to_booked open_slot h = cc
to_booked booked h = cc
to_booked blocked h = cc
to_booked canceled_slot h = cc

pub to_blocked : (s : SlotStatus) → is_held s ≡ true → some s ↝ some blocked
to_blocked held h = found_busy
to_blocked open_slot h = cc
to_blocked booked h = cc
to_blocked blocked h = cc
to_blocked canceled_slot h = cc

pub to_shut : (s : SlotStatus) → is_open_slot s ≡ true → some s ↝ some blocked
to_shut open_slot h = shut
to_shut held h = cc
to_shut booked h = cc
to_shut blocked h = cc
to_shut canceled_slot h = cc

pub to_freed : (s : SlotStatus) → is_booked s ≡ true → some s ↝ some open_slot
to_freed booked h = freed
to_freed held h = cc
to_freed open_slot h = cc
to_freed blocked h = cc
to_freed canceled_slot h = cc
