-- ===== src/Consultation/Lapsed.antt =====
-- A slot whose guest did not confirm in time can be booked again.
use spottex_test.Common.{
  ℕ, suc, ◌+◌, ◌++◌, ◌∷◌, [], ap, row_update_hit, ◌≡◌, refl, ◌∙◌, subst, Bool, true, false, ◌||◌,
  some, ◌==◌, ltb, count_where, row-update_where, row_counts, find_first-row, arith, inl, inr,
  Bool-cases, ==→eq, sym, ==_refl, row_key, if◌then◌else◌,
}
use spottex_test.Consultation.Model.{Slot, Desk, held, is_open_slot}
use spottex_test.Consultation.Agrees.Base.{slot_at}
use spottex_test.Consultation.Holding.{
  Guest, AskCalendar, booked_as, BookingAnswer, held_booking, held_until, hold_ms, claimable,
  lapsed, release_slot, release_expired, claimed_desk, claim_slot, hold_slot, host_disconnecting,
  book,
}

-- A slot that a guest can have at the time.
abbrev obtainable : ℕ → Slot → Bool
obtainable now x = is_open_slot x.status || lapsed now x

-- The slot as the release of expired holds leaves it.
after_release : ℕ → Slot → Slot
after_release now x = if lapsed now x then release_slot x else x

free_after_release :
    (now id : ℕ) (d : Desk) (x : Slot)
    → slot_at id d.slots ≡ some x
    → slot_at id (release_expired now d).slots ≡ some (after_release now x)
unfolding release_expired after_release
free_after_release now id d x at =
    row-update_where (λ (x : Slot). x.id) (lapsed now) release_slot (λ x. refl) id d.slots
    ∙ (rw at refl)

-- The slot is held for half an hour, and the booking is the new one of the guest, the last.
pub record IsBooked (now id : ℕ) (g : Guest) (d : Desk) (r : BookingAnswer × Desk) : Type 0 where
  pub answer : r.0 ≡ booked_as d.next_booking
  pub slot : Slot
  pub slot_there : slot_at id r.1.slots ≡ some slot
  pub held_now : slot.status ≡ held
  pub held_until_end : slot.hold_expires_at ≡ some (now + hold_ms)
  pub booked_last :
      r.1.bookings ≡ (release_expired now d).bookings ++ held_booking now g d.next_booking id ∷ []
  pub counted : r.1.next_booking ≡ suc d.next_booking

claims_found :
    (now id : ℕ) (g : Guest) (d : Desk) (y : Slot)
    → slot_at id d.slots ≡ some y
    → claimable now id y ≡ true
    → claim_slot now g id d ≡ some (d.next_booking, claimed_desk now g id d)
unfolding claim_slot
claims_found now id g d y at hit = elim (Bool-cases (count_where (claimable now id) d.slots == 0)) [
  | inl e ↦ ground (arith, row_counts (λ (x : Slot). x.id) id (claimable now id) d.slots y at)
  | inr e ↦ rw (claim_slot, e) refl
]

book_found :
    (ask : AskCalendar) (now id : ℕ) (g : Guest) (d : Desk) (y : Slot)
    → slot_at id (release_expired now d).slots ≡ some y
    → claimable now id y ≡ true
    → ((y : Slot) (e : Desk) → ask y e ≡ (some false, e))
    → host_disconnecting y.host (release_expired now d) ≡ false
    → book ask now g id d
      ≡ (booked_as d.next_booking, claimed_desk now g id (release_expired now d))
unfolding book hold_slot release_expired
book_found ask now id g d y at hit answers connected =
    let found =
      find_first-row (λ (x : Slot). x.id) id (claimable now id) (λ x e. ground arith)
        (release_expired now d).slots y at hit in
    let named = ==→eq y.id id (ground arith) in
    let claimed =
      claims_found now y.id g (release_expired now d) y
        (subst (λ i. slot_at i (release_expired now d).slots ≡ some y) (sym named) at)
        (ground (arith, ==_refl y.id)) in
    rw (book, found, answers y (release_expired now d), hold_slot, connected, claimed)
      (ap (λ i. (booked_as d.next_booking, claimed_desk now g i (release_expired now d))) named)

IsBooked-rows :
    (ask : AskCalendar) (now id : ℕ) (g : Guest) (d : Desk) (y : Slot)
    → slot_at id (release_expired now d).slots ≡ some y
    → claimable now id y ≡ true
    → book ask now g id d
      ≡ (booked_as d.next_booking, claimed_desk now g id (release_expired now d))
    → IsBooked now id g d (book ask now g id d)
unfolding claimed_desk release_expired
IsBooked-rows ask now id g d y at hit booked = subst (IsBooked now id g d) (sym booked) (record {
  answer = refl;
  slot = held_until (now + hold_ms) y;
  slot_there =
      row_update_hit (λ (x : Slot). x.id) id (claimable now id) (held_until (now + hold_ms))
        (λ x. refl) (release_expired now d).slots y at hit;
  held_now = refl;
  held_until_end = refl;
  booked_last = refl;
  counted = refl;
})

-- A future slot that is open, or held by a guest whose half hour is over, is booked by the next
-- guest who asks: it is held for half an hour and the guest's pending booking for it is appended, when the host's calendar answers that it is free and is not being disconnected.
pub book-obtainable :
    (ask : AskCalendar) (now id : ℕ) (g : Guest) (d : Desk) (x : Slot)
    → slot_at id d.slots ≡ some x
    → obtainable now x ≡ true
    → ltb now x.start_utc ≡ true
    → ((y : Slot) (e : Desk) → ask y e ≡ (some false, e))
    → host_disconnecting x.host d ≡ false
    → IsBooked now id g d (book ask now g id d)
unfolding after_release release_expired host_disconnecting
book-obtainable ask now id g d x at free future answers connected =
    let named = row_key (λ (x : Slot). x.id) id d.slots at in
    elim (Bool-cases (lapsed now x)) [
      | inl e ↦
          let hit : claimable now id (after_release now x) ≡ true = ground (arith, ==_refl x.id) in
          let there = free_after_release now id d x at in
          IsBooked-rows ask now id g d (after_release now x) there hit
            (book_found ask now id g d (after_release now x) there hit answers (rw e connected))
      | inr e ↦
          let hit : claimable now id (after_release now x) ≡ true = ground (arith, ==_refl x.id) in
          let there = free_after_release now id d x at in
          IsBooked-rows ask now id g d (after_release now x) there hit
            (book_found ask now id g d (after_release now x) there hit answers (rw e connected))
    ]
