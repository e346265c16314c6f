-- ===== src/Consultation/Agrees/Base.antt =====
-- The agreement of slots and bookings, and the two shapes in which the code changes both tables.
use spottex_test.Common.{
  ℕ, ◌≤◌, ◌≡◌, sym, ◌∙◌, Bool, ◌&&◌, Option, List, ◌==◌, update_where, count_where, row, arith,
  flag, flag_of, count_where_ids, flag_update, flag_here, count_update_hit, true, some, ◌+◌,
}
use spottex_test.Consultation.Model.{
  Slot, Booking, Desk, is_held, is_booked, is_pending_booking, is_confirmed,
}

abbrev pub pending_for : ℕ → Booking → Bool
pending_for i b = b.slot_id == i && is_pending_booking b.status

abbrev pub confirmed_for : ℕ → Booking → Bool
confirmed_for i b = b.slot_id == i && is_confirmed b.status

abbrev pub slot_at : ℕ → List Slot → Option Slot
slot_at i xs = row (λ (x : Slot). x.id) i xs

abbrev pub held_slot : Slot → Bool
held_slot x = is_held x.status

abbrev pub taken_slot : Slot → Bool
taken_slot x = is_booked x.status

-- Ids are unique and below the counters. A held slot has exactly one pending booking and any other
-- slot none; a booked slot has at most one confirmed booking and any other slot none.
pub record Agrees (slots : List Slot) (bookings : List Booking) (next_slot next_booking : ℕ)
    : Type 0 where
  pub slot_once : (i : ℕ) → count_where (λ (x : Slot). x.id == i) slots ≤ 1
  pub slot_fresh : (i : ℕ) → next_slot ≤ i → count_where (λ (x : Slot). x.id == i) slots ≡ 0
  pub booking_once : (i : ℕ) → count_where (λ (b : Booking). b.id == i) bookings ≤ 1
  pub booking_fresh :
      (i : ℕ) → next_booking ≤ i → count_where (λ (b : Booking). b.id == i) bookings ≡ 0
  pub one_pending :
      (i : ℕ) → count_where (pending_for i) bookings ≡ flag_of held_slot (slot_at i slots)
  pub one_confirmed :
      (i : ℕ) → count_where (confirmed_for i) bookings ≤ flag_of taken_slot (slot_at i slots)

-- A desk whose tables agree.
abbrev pub IsSound : Desk → Type 0
IsSound d = Agrees d.slots d.bookings d.next_slot d.next_booking

-- An update of slots and of bookings that keeps their ids.
pub Agrees-updated :
    {xs : List Slot} {bs : List Booking} {n m : ℕ}
    → Agrees xs bs n m
    → (p : Slot → Bool) (f : Slot → Slot) → ((x : Slot) → (f x).id ≡ x.id)
    → (q : Booking → Bool) (g : Booking → Booking) → ((b : Booking) → (g b).id ≡ b.id)
    → ((i : ℕ)
        → count_where (pending_for i) (update_where q g bs)
          ≡ flag_of held_slot (slot_at i (update_where p f xs)))
    → ((i : ℕ)
        → count_where (confirmed_for i) (update_where q g bs)
          ≤ flag_of taken_slot (slot_at i (update_where p f xs)))
    → Agrees (update_where p f xs) (update_where q g bs) n m
Agrees-updated {xs = xs} {bs = bs} a p f keep_f q g keep_g pend conf = record {
  slot_once =
      λ i. ground (arith, count_where_ids (λ (x : Slot). x.id) p f keep_f xs i, a.slot_once i);
  slot_fresh = λ i le. count_where_ids (λ (x : Slot). x.id) p f keep_f xs i ∙ a.slot_fresh i le;
  booking_once = λ i.
      ground (arith, count_where_ids (λ (b : Booking). b.id) q g keep_g bs i, a.booking_once i);
  booking_fresh =
      λ i le. count_where_ids (λ (b : Booking). b.id) q g keep_g bs i ∙ a.booking_fresh i le;
  one_pending = pend;
  one_confirmed = conf;
}

-- No update of bookings: only the flags of the slots are to be compared.
pub Agrees-slots :
    {xs : List Slot} {bs : List Booking} {n m : ℕ}
    → Agrees xs bs n m
    → (p : Slot → Bool) (f : Slot → Slot) → ((x : Slot) → (f x).id ≡ x.id)
    → ((i : ℕ)
        → flag_of held_slot (slot_at i (update_where p f xs)) ≡ flag_of held_slot (slot_at i xs))
    → ((i : ℕ)
        → flag_of taken_slot (slot_at i xs) ≤ flag_of taken_slot (slot_at i (update_where p f xs)))
    → Agrees (update_where p f xs) bs n m
Agrees-slots {xs = xs} {bs = bs} a p f keep_f pend conf = record {
  slot_once =
      λ i. ground (arith, count_where_ids (λ (x : Slot). x.id) p f keep_f xs i, a.slot_once i);
  slot_fresh = λ i le. count_where_ids (λ (x : Slot). x.id) p f keep_f xs i ∙ a.slot_fresh i le;
  booking_once = a.booking_once;
  booking_fresh = a.booking_fresh;
  one_pending = λ i. a.one_pending i ∙ sym (pend i);
  one_confirmed = λ i. ground (arith, conf i, a.one_confirmed i);
}

-- Both: one booking and its slot are written, and the slot's flags change with the booking's status.
pub Agrees-edited :
    {xs : List Slot} {bs : List Booking} {n m : ℕ}
    → Agrees xs bs n m
    → (id : ℕ) (p : Slot → Bool) (f : Slot → Slot) → ((x : Slot) → (f x).id ≡ x.id)
    → ((x : Slot) → p x ≡ true → (x.id == id) ≡ true)
    → (k : ℕ) (q : Booking → Bool) (g : Booking → Booking) → ((b : Booking) → (g b).id ≡ b.id)
    → ((b : Booking) → q b ≡ true → (b.id == k) ≡ true)
    → (x : Slot) → slot_at id xs ≡ some x
    → p x ≡ true
    → (b : Booking) → row (λ (b : Booking). b.id) k bs ≡ some b
    → q b ≡ true
    → b.slot_id ≡ id
    → (g b).slot_id ≡ id
    → flag (is_pending_booking (g b).status) + flag (held_slot x)
      ≡ flag (is_pending_booking b.status) + flag (held_slot (f x))
    → flag (is_confirmed (g b).status) + flag (taken_slot x)
      ≤ flag (is_confirmed b.status) + flag (taken_slot (f x))
    → Agrees (update_where p f xs) (update_where q g bs) n m
Agrees-edited {xs = xs} {bs = bs} a id p f keep_f only_f k q g keep_g only_g x at hit b there meets
      was is pend conf =
    let slot_flag = λ (r : Slot → Bool) (i : ℕ).
      flag_update (λ (x : Slot). x.id) id i p r f keep_f only_f xs x at hit in
    let slot_was = λ (r : Slot → Bool) (i : ℕ). flag_here (λ (x : Slot). x.id) id i r xs x at in
    let counted = λ (r : Booking → Bool).
      count_update_hit (λ (b : Booking). b.id) k q r g only_g bs b (a.booking_once k) there meets in
    Agrees-updated a p f keep_f q g keep_g
      (λ i. ground (
        arith,
        slot_flag held_slot i,
        slot_was held_slot i,
        a.one_pending i,
        counted (pending_for i),
      ))
      (λ i. ground (
        arith,
        slot_flag taken_slot i,
        slot_was taken_slot i,
        a.one_confirmed i,
        counted (confirmed_for i),
      ))
