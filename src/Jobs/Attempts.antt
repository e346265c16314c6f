-- ===== src/Jobs/Attempts.antt =====
-- The outbox of email.ts tries a mail at most five times.
use spottex_test.Common.{
  ℕ, ◌≤◌, ◌≡◌, sym, ap, subst, ◌∙◌, Bool, true, false, ◌&&◌, ◌==◌, List, [], ◌∷◌, update_where,
  count_where, if◌then◌else◌, Bool-cases, inl, inr, arith, ltb, leb,
}
use spottex_test.Jobs.Model.{Mail, pending, failed}
use spottex_test.Jobs.Outbox.{
  Deliver, is_waiting, is_stale, recover_mails, waits, claim_mail, sent_mail, unsent_mail,
  settle_mail, process_mail,
}

-- A mail that waits has at most four attempts behind it, any other at most five.
abbrev pub Within : Mail → Type 0
Within m = m.attempts ≤ (if is_waiting m.status then 4 else 5)

abbrev pub AllWithin : List Mail → Type 0
AllWithin [] = Unit {0}
AllWithin (m ∷ ms) = Within m × AllWithin ms

update_where-AllWithin :
    (p : Mail → Bool) (f : Mail → Mail) (ms : List Mail)
    → ((m : Mail) → p m ≡ true → Within m → Within (f m))
    → AllWithin ms
    → AllWithin (update_where p f ms)
unfolding update_where
update_where-AllWithin p f [] keep h = tt
update_where-AllWithin p f (m ∷ ms) keep (h, hs) = elim (Bool-cases (p m)) [
  | inl e ↦ (rw e (keep m e h), update_where-AllWithin p f ms keep hs)
  | inr e ↦ (rw e h, update_where-AllWithin p f ms keep hs)
]

recovers : (now : ℕ) (m : Mail) → (is_stale now m && ltb m.attempts 5) ≡ true → m.attempts ≤ 4
recovers now m e = ground arith

Within-le : (m : Mail) → Within m → m.attempts ≤ 5
Within-le m h = ground arith

recover_mails-AllWithin :
    (now : ℕ) (ms : List Mail) → AllWithin ms → AllWithin (recover_mails now ms)
unfolding recover_mails
recover_mails-AllWithin now ms h =
    update_where-AllWithin (λ m. is_stale now m && leb 5 m.attempts)
      (λ m. record m { status = failed; updated_at = now }) _ (λ m e w. Within-le m w)
      (update_where-AllWithin (λ m. is_stale now m && ltb m.attempts 5)
        (λ m. record m { status = pending; updated_at = now }) ms (λ m e w. recovers now m e) h)

-- Every row with the mail's id is the mail as it was read.
abbrev pub OnlyRow : Mail → List Mail → Type 0
OnlyRow m [] = Unit {0}
OnlyRow m (x ∷ xs) = ((x.id == m.id) ≡ true → x ≡ m) × OnlyRow m xs

twice-AllWithin :
    (now : ℕ) (m : Mail) (g : Mail → Mail) (ms : List Mail)
    → is_waiting m.status ≡ true
    → Within (g (claim_mail now m))
    → OnlyRow m ms
    → AllWithin ms
    → AllWithin (update_where (λ x. x.id == m.id) g (update_where (waits m.id) (claim_mail now) ms))
unfolding update_where
twice-AllWithin now m g [] w h only hs = tt
twice-AllWithin now m g (x ∷ xs) w h (only, rest) (k, hs) = elim (Bool-cases (x.id == m.id)) [
  | inl e ↦
      let same = only e in
      (
        rw (e, ap (λ y. is_waiting y.status) same ∙ w, e)
            (subst (λ y. Within (g (claim_mail now y))) (sym same) h),
        twice-AllWithin now m g xs w h rest hs,
      )
  | inr e ↦ (rw (e, e) k, twice-AllWithin now m g xs w h rest hs)
]

claimed-Within : (now : ℕ) (m : Mail) → is_waiting m.status ≡ true → Within m → m.attempts ≤ 4
claimed-Within now m w h = ground arith

sent : (now : ℕ) (m : Mail) → m.attempts ≤ 4 → Within (sent_mail now (claim_mail now m))
sent now m h = omega arith

unsent :
    (now : ℕ) (m : Mail) → m.attempts ≤ 4 → Within (unsent_mail now m.attempts (claim_mail now m))
unsent now m h = ground arith

settled-AllWithin :
    (now : ℕ) (m : Mail) (done : Bool) (ms : List Mail)
    → is_waiting m.status ≡ true
    → Within m
    → OnlyRow m ms
    → AllWithin ms
    → AllWithin (settle_mail now m done (update_where (waits m.id) (claim_mail now) ms))
settled-AllWithin now m true ms w h only hs =
    twice-AllWithin now m (sent_mail now) ms w (sent now m (claimed-Within now m w h)) only hs
settled-AllWithin now m false ms w h only hs =
    twice-AllWithin now m (unsent_mail now m.attempts) ms w
      (unsent now m (claimed-Within now m w h)) only hs

-- One delivery keeps every mail within its attempts (four while it waits, five otherwise), whether it
-- succeeds or fails: if the mail was read waiting, its id has no other row, and the delivery leaves the
-- outbox alone.
pub process_mail-AllWithin :
    (now : ℕ) (deliver : Deliver) (m : Mail) (ms : List Mail)
    → ((x : Mail) (xs : List Mail) → (deliver x xs).1 ≡ xs)
    → is_waiting m.status ≡ true
    → Within m
    → OnlyRow m ms
    → AllWithin ms
    → AllWithin (process_mail now deliver m ms).1
unfolding process_mail
process_mail-AllWithin now deliver m ms alone w h only hs =
    elim (Bool-cases (count_where (waits m.id) ms == 0)) [
      | inl e ↦ rw (process_mail, e) hs
      | inr e ↦
          rw (process_mail, e, alone m (update_where (waits m.id) (claim_mail now) ms))
            (settled-AllWithin now m (deliver m (update_where (waits m.id) (claim_mail now) ms)).0
              ms w h only hs)
    ]
