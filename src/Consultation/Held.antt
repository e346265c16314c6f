-- ===== src/Consultation/Held.antt =====
-- A consultation slot is held once.
use spottex_test.Common.{
  ℕ, ◌+◌, ◌≤◌, ◌≡◌, refl, ap, ◌∙◌, List, [], ◌∷◌, none, some, update_where, count_where, arith,
}
use spottex_test.Consultation.Model.{Slot, Desk}
use spottex_test.Consultation.Holding.{
  Guest, claimable, held_until, hold_ms, claimed_desk, claim_slot,
}

none_claimable :
    (now later id t : ℕ) (xs : List Slot)
    → now ≤ later
    → count_where (claimable later id) (update_where (claimable now id) (held_until t) xs) ≡ 0
unfolding count_where update_where
none_claimable now later id t [] h = refl
none_claimable now later id t (x ∷ xs) h = ground (arith, none_claimable now later id t xs h)

claims_rows :
    (now slot_id i : ℕ) (g : Guest) (d d' : Desk)
    → claim_slot now g slot_id d ≡ some (i, d')
    → d'.slots ≡ update_where (claimable now slot_id) (held_until (now + hold_ms)) d.slots
unfolding claim_slot claimed_desk
claims_rows now slot_id i g d d' h = ground arith

refuses :
    (now slot_id : ℕ) (g : Guest) (d : Desk)
    → count_where (claimable now slot_id) d.slots ≡ 0
    → claim_slot now g slot_id d ≡ none
unfolding claim_slot
refuses now slot_id g d h = rw h refl

-- A slot is held once: after a booking has claimed it, a second claim at any later time finds it taken,
-- as long as no hold is released.
pub claim_slot-claim_slot :
    (now later slot_id i : ℕ) (g h : Guest) (d d' : Desk)
    → claim_slot now g slot_id d ≡ some (i, d')
    → now ≤ later
    → claim_slot later h slot_id d' ≡ none
claim_slot-claim_slot now later slot_id i g h d d' e le = refuses later slot_id h d' (
    ap (count_where (claimable later slot_id)) (claims_rows now slot_id i g d d' e)
    ∙ none_claimable now later slot_id (now + hold_ms) d.slots le)
