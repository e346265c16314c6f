-- ===== src/Consultation/Removal.antt =====
-- A slot that a guest takes while its host removes it: DELETE of
-- src/app/api/admin/consultations/slots/[id]/route.ts reads the slot and then writes it by its id.
use spottex_test.Common.{
  ℕ, suc, ◌+◌, ◌≡◌, refl, ap, ◌∙◌, some, true, ◌==◌, update_where, count_where, arith, flag_of,
  row_key, row_update_hit, row_counted_some, row_counts, ==_refl, Gives-some, Bool-cases, inl, inr,
  false,
}
use spottex_test.Consultation.Model.{Slot, Desk, held, canceled_slot}
use spottex_test.Consultation.Holding.{
  Guest, claim_slot, claimed_desk, claimable, held_until, hold_ms,
}
use spottex_test.Consultation.Slots.{
  cancel_slot, find_removable, write_removal, removed, remove_slot,
}
use spottex_test.Consultation.Agrees.Base.{IsSound, slot_at, held_slot, pending_for}
use spottex_test.Consultation.Agrees.Kept.{claim_slot-IsSound}
use spottex_test.Consultation.Diagram.Edges.{status_at}

held_after_claim :
    (now id i : ℕ) (g : Guest) (d d' : Desk)
    → IsSound d
    → claim_slot now g id d ≡ some (i, d')
    → (x : Slot) × (slot_at id d'.slots ≡ some x) × (x.status ≡ held)
unfolding claim_slot claimed_desk
held_after_claim now id i g d d' a h =
    elim (Bool-cases (count_where (claimable now id) d.slots == 0)) [
      | inl e ↦ absurd (ground arith)
      | inr e ↦
          let key = λ (x : Slot). x.id in
          let (x, at, hit) =
            row_counted_some key id (claimable now id) (λ x h. ground arith) d.slots
              (a.slot_once id) e in
          let hit_at =
            row_update_hit key id (claimable now id) (held_until (now + hold_ms)) (λ x. refl)
              d.slots x at hit in
          let same : d'.slots
              ≡ update_where (claimable now id) (held_until (now + hold_ms)) d.slots =
            ground arith in
          (held_until (now + hold_ms) x, ap (slot_at id) same ∙ hit_at, refl)
    ]

cancels :
    (id n : ℕ) (d : Desk) (x : Slot)
    → slot_at id d.slots ≡ some x
    → (e : Desk) × (write_removal id (suc n) d ≡ some e)
      × (status_at id e.slots ≡ some canceled_slot)
      × (e.bookings ≡ d.bookings)
unfolding write_removal
cancels id n d x at =
    let key = λ (x : Slot). x.id in
    let hit : (x.id == id) ≡ true = rw (row_key key id d.slots at) (==_refl id) in
    let there : (count_where (λ (y : Slot). y.id == id) d.slots == 0) ≡ false =
      ground (arith, row_counts key id (λ y. y.id == id) d.slots x at hit) in
    let written =
      row_update_hit key id (λ y. y.id == id) cancel_slot (λ y. refl) d.slots x at hit in
    (
      record d { slots = update_where (λ y. y.id == id) cancel_slot d.slots },
      rw (write_removal, there) (ground arith),
      rw written refl,
      refl,
    )

-- If a guest takes a slot after the host's removal has read it with some bookings of its past, and
-- before the removal writes it, then the removal succeeds all the same: the slot is CANCELED, and the
-- guest's pending booking stays for it.
pub remove_slot-claim_slot :
    (now host id i n : ℕ) (g : Guest) (d d' : Desk)
    → IsSound d
    → find_removable host id d ≡ some (suc n)
    → claim_slot now g id d ≡ some (i, d')
    → (e : Desk) × (remove_slot (λ rows. d') host id d ≡ (removed, e))
      × (status_at id e.slots ≡ some canceled_slot)
      × (count_where (pending_for id) e.bookings ≡ 1)
unfolding remove_slot
remove_slot-claim_slot now host id i n g d d' a read claimed =
    let (x, at, is_held_now) = held_after_claim now id i g d d' a claimed in
    let a' =
      Gives-some (λ (r : ℕ × Desk). IsSound r.1) (claim_slot now g id d) (i, d') claimed
        (claim_slot-IsSound now id g d a) in
    let (e, writes, canceled, same) = cancels id n d' x at in
    let pending : count_where (pending_for id) d'.bookings ≡ 1 =
      a'.one_pending id ∙ ap (flag_of held_slot) at ∙ ground (arith, is_held_now) in
    (
      e,
      rw (remove_slot, read, writes) refl,
      canceled,
      ap (count_where (pending_for id)) same ∙ pending,
    )
