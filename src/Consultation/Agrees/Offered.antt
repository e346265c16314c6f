-- ===== src/Consultation/Agrees/Offered.antt =====
-- What hosts do to their slots and bookings keeps them in agreement.
use spottex_test.Common.{
  ℕ, suc, ◌≤◌, ◌≡◌, refl, Bool, true, false, some, none, List, [], ◌∷◌, ◌++◌, ◌==◌, inl, inr,
  Bool-cases, update_where, count_where, find_first, arith, count_where_ids, count_where-append,
  count_update_hit, flag_here, if◌then◌else◌, ==→eq, find_many, not, row-find_first,
  find_first_holds, flag_idle, flag_append,
}
use spottex_test.Consultation.Model.{Slot, Booking, Desk, is_held, is_booked}
use spottex_test.Consultation.Agrees.Base.{
  Agrees, IsSound, Agrees-slots, pending_for, confirmed_for, held_slot, taken_slot, slot_at,
}
use spottex_test.Consultation.Slots.{
  new_slot, removable, closable, insert_slot, create_many, same_start, Outcome, attended, missed,
  close_as,
}
use spottex_test.Consultation.Calendar.Google.{Interval}

pub row_removed :
    (id i : ℕ) (xs : List Slot)
    → slot_at i (find_many (λ (y : Slot). not (y.id == id)) xs)
      ≡ (if i == id then none else slot_at i xs)
unfolding find_first find_many
row_removed id i [] = ground arith
row_removed id i (x ∷ xs) = ground (arith, row_removed id i xs)

count_removed :
    (id i : ℕ) (xs : List Slot)
    → count_where (λ (x : Slot). x.id == i) (find_many (λ (y : Slot). not (y.id == id)) xs)
      ≤ count_where (λ (x : Slot). x.id == i) xs
unfolding count_where find_many
count_removed id i [] = ground arith
count_removed id i (x ∷ xs) = ground (arith, count_removed id i xs)

module _ {xs : List Slot} {bs : List Booking} {n m : ℕ} (a : Agrees xs bs n m) where
  pub insert-Agrees :
      (host start finish : ℕ) → Agrees (xs ++ new_slot n host start finish ∷ []) bs (suc n) m
  insert-Agrees host start finish = record {
    slot_once = λ i. ground (
      arith,
      count_where-append (λ (x : Slot). x.id == i) xs (new_slot n host start finish),
      a.slot_once i,
      a.slot_fresh i,
    );
    slot_fresh = λ i le. ground (
      arith,
      count_where-append (λ (x : Slot). x.id == i) xs (new_slot n host start finish),
      a.slot_fresh i,
    );
    booking_once = a.booking_once;
    booking_fresh = a.booking_fresh;
    one_pending = λ i. ground (
      arith,
      flag_append (λ (x : Slot). x.id) i held_slot xs (new_slot n host start finish),
      a.one_pending i,
    );
    one_confirmed = λ i. ground (
      arith,
      flag_append (λ (x : Slot). x.id) i taken_slot xs (new_slot n host start finish),
      a.one_confirmed i,
    );
  }

  -- Slots that are neither held nor booked change to such slots.
  pub idle-Agrees :
      (p : Slot → Bool) (f : Slot → Slot)
      → ((x : Slot) → (f x).id ≡ x.id)
      → ((x : Slot) → p x ≡ true → (is_held x.status ≡ false) × (is_held (f x).status ≡ false))
      → ((x : Slot) → p x ≡ true → (is_booked x.status ≡ false) × (is_booked (f x).status ≡ false))
      → Agrees (update_where p f xs) bs n m
  idle-Agrees p f keep idle free =
      Agrees-slots a p f keep (λ i. flag_idle (λ (x : Slot). x.id) i p held_slot f keep idle xs)
        (λ i. ground (arith, flag_idle (λ (x : Slot). x.id) i p taken_slot f keep free xs))

  pub remove-Agrees :
      (host id : ℕ) (x : Slot)
      → find_first (removable host id) xs ≡ some x
      → Agrees (find_many (λ y. not (y.id == id)) xs) bs n m
  remove-Agrees host id x found =
      let holds = find_first_holds (removable host id) xs x found in
      let at =
        row-find_first (λ (x : Slot). x.id) (removable host id) xs x (a.slot_once x.id) found in
      record {
        slot_once = λ i. ground (arith, count_removed id i xs, a.slot_once i);
        slot_fresh = λ i le. ground (arith, count_removed id i xs, a.slot_fresh i);
        booking_once = a.booking_once;
        booking_fresh = a.booking_fresh;
        one_pending = λ i. ground (
          arith,
          row_removed id i xs,
          a.one_pending i,
          flag_here (λ (x : Slot). x.id) x.id i held_slot xs x at,
        );
        one_confirmed = λ i. ground (
          arith,
          row_removed id i xs,
          a.one_confirmed i,
          flag_here (λ (x : Slot). x.id) x.id i taken_slot xs x at,
        );
      }

  pub close-Agrees :
      (now host id : ℕ) (outcome : Outcome) (b : Booking)
      → find_first (closable now host id xs) bs ≡ some b
      → Agrees xs (update_where (λ c. c.id == id) (close_as now outcome) bs) n m
  close-Agrees now host id outcome b found =
      let holds = find_first_holds (closable now host id xs) bs b found in
      let there =
        row-find_first (λ (b : Booking). b.id) (closable now host id xs) bs b (a.booking_once b.id)
          found in
      let named = ==→eq b.id id (ground arith) in
      let counted = λ (r : Booking → Bool).
        count_update_hit (λ (b : Booking). b.id) b.id (λ c. c.id == id) r (close_as now outcome)
          (λ c e. ground arith) bs b (a.booking_once b.id) there (ground arith) in
      record {
        slot_once = a.slot_once;
        slot_fresh = a.slot_fresh;
        booking_once = λ i. ground (
          arith,
          count_where_ids (λ (b : Booking). b.id) (λ c. c.id == id) (close_as now outcome)
              (λ c. refl) bs i,
          a.booking_once i,
        );
        booking_fresh = λ i le. ground (
          arith,
          count_where_ids (λ (b : Booking). b.id) (λ c. c.id == id) (close_as now outcome)
              (λ c. refl) bs i,
          a.booking_fresh i,
        );
        one_pending = λ i. elim outcome [
          | attended ↦ ground (arith, counted (pending_for i), a.one_pending i)
          | missed ↦ ground (arith, counted (pending_for i), a.one_pending i)
        ];
        one_confirmed = λ i. elim outcome [
          | attended ↦ ground (arith, counted (confirmed_for i), a.one_confirmed i)
          | missed ↦ ground (arith, counted (confirmed_for i), a.one_confirmed i)
        ];
      }

pub create_many-Agrees :
    (host : ℕ) (is : List Interval) (d : Desk) → IsSound d → IsSound (create_many host is d)
unfolding create_many
create_many-Agrees host [] d a = a
create_many-Agrees host (i ∷ is) d a =
    elim (Bool-cases (count_where (same_start host i.start) d.slots == 0)) [
      | inl e ↦
          rw (create_many, e)
            (create_many-Agrees host is (insert_slot host i.start i.finish d)
              (insert-Agrees a host i.start i.finish))
      | inr e ↦ rw (create_many, e) (create_many-Agrees host is d a)
    ]
