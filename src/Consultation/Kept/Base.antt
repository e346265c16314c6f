-- ===== src/Consultation/Kept/Base.antt =====
-- A pending booking keeps its slot: the writes on bookings.
use spottex_test.Common.{
  ℕ, ◌≡◌, refl, ◌∙◌, Bool, true, Option, some, List, [], ◌∷◌, ◌++◌, update_where, row, row-append,
  row-update_where, inl, inr, Bool-cases,
}
use spottex_test.Consultation.Model.{Booking, is_pending_booking}

abbrev pub booking_at : ℕ → List Booking → Option Booking
booking_at k bs = row (λ (b : Booking). b.id) k bs

-- Every booking is still there, and is for the same slot if it is pending, as it then was before.
abbrev pub StayPut : List Booking → List Booking → Type 0
StayPut bs cs =
    (k : ℕ) (b : Booking)
    → booking_at k bs ≡ some b
    → (c : Booking) × (booking_at k cs ≡ some c)
      × (is_pending_booking c.status ≡ true
          → (is_pending_booking b.status ≡ true) × (c.slot_id ≡ b.slot_id))

pub same-StayPut : (bs : List Booking) → StayPut bs bs
same-StayPut bs k b e = (b, e, λ h. (h, refl))

pub append-StayPut : (bs : List Booking) (x : Booking) → StayPut bs (bs ++ x ∷ [])
append-StayPut bs x k b e = (b, row-append (λ (b : Booking). b.id) k bs x b e, λ h. (h, refl))

pub update-StayPut :
    (q : Booking → Bool) (g : Booking → Booking) (bs : List Booking)
    → ((b : Booking) → (g b).id ≡ b.id)
    → ((b : Booking)
        → q b ≡ true
        → is_pending_booking (g b).status ≡ true
        → (is_pending_booking b.status ≡ true) × ((g b).slot_id ≡ b.slot_id))
    → StayPut bs (update_where q g bs)
update-StayPut q g bs keep still k b e =
    let after = row-update_where (λ (b : Booking). b.id) q g keep k bs in
    elim (Bool-cases (q b)) [
      | inl h ↦ (g b, rw (after, e, h) refl, still b h)
      | inr h ↦ (b, rw (after, e, h) refl, λ p. (p, refl))
    ]

pub then-StayPut : (bs cs ds : List Booking) → StayPut bs cs → StayPut cs ds → StayPut bs ds
then-StayPut bs cs ds one two k b e =
    let (c, f, same) = one k b e in
    let (d, i, again) = two k c f in
    (d, i, λ p. ((same (again p).0).0, (again p).1 ∙ (same (again p).0).1))
