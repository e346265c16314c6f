-- ===== src/Common/Rows.antt =====
-- Updates of the rows of a table that has a key: what they count.
use Prim.Native.Nat.{ℕ, ◌+◌, ◌≤◌}
use mathlib.Core.Path.{◌≡◌, refl}
use mathlib.Core.Logic.{inl, inr}
use mathlib.Core.Bool.{Bool, true, false, ◌&&◌}
use mathlib.Core.Option.{Option, none, some}
use mathlib.Core.List.{List, [], ◌∷◌, ◌++◌}
use native.Mathlib.Omega.{arith}
use spottex_test.Common.Tests.{◌==◌, ==_refl, ==→eq, if◌then◌else◌, Bool-cases, Option-cases}
use spottex_test.Common.Tables.{find_first, update_where, count_where, row, row-update_where}

abbrev pub flag : Bool → ℕ
flag true = 1
flag false = 0

module _ {ℓ} {A : Type ℓ} where
  abbrev pub flag_of : (A → Bool) → Option A → ℕ
  flag_of p none = 0
  flag_of p (some r) = flag (p r)

  pub count_where-append :
      (q : A → Bool) (t : List A) (r : A)
      → count_where q (t ++ r ∷ []) ≡ count_where q t + flag (q r)
  unfolding count_where
  count_where-append q [] r = ground arith
  count_where-append q (x ∷ xs) r = ground (arith, count_where-append q xs r)

  count_where-update_where :
      (q p : A → Bool) (f : A → A)
      → ((a : A) → q (f a) ≡ q a)
      → (t : List A) → count_where q (update_where p f t) ≡ count_where q t
  unfolding count_where update_where
  count_where-update_where q p f keep [] = refl
  count_where-update_where q p f keep (x ∷ xs) =
      ground (arith, keep x, count_where-update_where q p f keep xs)

  pub count_where_ids :
      (key : A → ℕ) (p : A → Bool) (f : A → A)
      → ((a : A) → key (f a) ≡ key a)
      → (t : List A) (i : ℕ)
      → count_where (λ a. key a == i) (update_where p f t) ≡ count_where (λ a. key a == i) t
  count_where_ids key p f keep t i =
      count_where-update_where (λ a. key a == i) p f (λ a. rw (keep a) refl) t

  -- An update that finds no row.
  update_where_none :
      (key : A → ℕ) (i : ℕ) (p : A → Bool) (f : A → A)
      → ((a : A) → p a ≡ true → (key a == i) ≡ true)
      → (t : List A) → count_where (λ a. key a == i) t ≡ 0
      → update_where p f t ≡ t
  unfolding count_where update_where
  update_where_none key i p f only [] h = refl
  update_where_none key i p f only (x ∷ xs) h =
      ground (arith, only x, update_where_none key i p f only xs)

  -- A row of the key: whether a condition on it holds is whether it is counted.
  count_where_keyed :
      (key : A → ℕ) (i : ℕ) (p : A → Bool)
      → ((a : A) → p a ≡ true → (key a == i) ≡ true)
      → (t : List A) → count_where (λ a. key a == i) t ≡ 0
      → count_where p t ≡ 0
  unfolding count_where
  count_where_keyed key i p only [] h = refl
  count_where_keyed key i p only (x ∷ xs) h =
      ground (arith, only x, count_where_keyed key i p only xs)

  count_where-row :
      (key : A → ℕ) (i : ℕ) (p : A → Bool)
      → ((a : A) → p a ≡ true → (key a == i) ≡ true)
      → (t : List A) → count_where (λ a. key a == i) t ≤ 1
      → count_where p t ≡ flag_of p (row key i t)
  unfolding count_where find_first
  count_where-row key i p only [] h = refl
  count_where-row key i p only (x ∷ xs) h =
      ground (arith, only x, count_where-row key i p only xs, count_where_keyed key i p only xs)

  -- What an update of the one row of a key adds to a count and takes from it.
  count_where_update :
      (key : A → ℕ) (i : ℕ) (p q : A → Bool) (f : A → A)
      → ((a : A) → p a ≡ true → (key a == i) ≡ true)
      → (t : List A) → count_where (λ a. key a == i) t ≤ 1
      → count_where q (update_where p f t) + flag_of (λ r. p r && q r) (row key i t)
        ≡ count_where q t + flag_of (λ r. p r && q (f r)) (row key i t)
  unfolding count_where find_first update_where
  count_where_update key i p q f only [] h = refl
  count_where_update key i p q f only (x ∷ xs) h =
      ground
        (arith, only x, count_where_update key i p q f only xs, update_where_none key i p f only xs)

  find_first_counted :
      (key : A → ℕ) (p : A → Bool) (t : List A) (r : A)
      → find_first p t ≡ some r
      → 1 ≤ count_where (λ a. key a == key r) t
  unfolding count_where find_first
  find_first_counted key p [] r h = cc
  find_first_counted key p (x ∷ xs) r h =
      ground (arith, find_first_counted key p xs r, ==_refl (key r))

  pub find_first_holds : (p : A → Bool) (t : List A) (r : A) → find_first p t ≡ some r → p r ≡ true
  unfolding find_first
  find_first_holds p [] r h = cc
  find_first_holds p (x ∷ xs) r h = ground (arith, find_first_holds p xs r)

  -- The first row that meets a condition is the row of its key.
  pub row-find_first :
      (key : A → ℕ) (p : A → Bool) (t : List A) (r : A)
      → count_where (λ a. key a == key r) t ≤ 1
      → find_first p t ≡ some r
      → row key (key r) t ≡ some r
  unfolding count_where find_first
  row-find_first key p [] r u h = cc
  row-find_first key p (x ∷ xs) r u h =
      ground (arith, row-find_first key p xs r, find_first_counted key p xs r, ==_refl (key r))

  pub row_append_none :
      (key : A → ℕ) (i : ℕ) (t : List A) (r : A)
      → row key i t ≡ none
      → row key i (t ++ r ∷ []) ≡ (if key r == i then some r else none)
  unfolding find_first
  row_append_none key i [] r h = refl
  row_append_none key i (x ∷ xs) r h = ground (arith, row_append_none key i xs r)

  -- Without a row of the key there is none to be found.
  row_counted :
      (key : A → ℕ) (i : ℕ) (t : List A) → count_where (λ a. key a == i) t ≡ 0 → row key i t ≡ none
  unfolding count_where find_first
  row_counted key i [] h = refl
  row_counted key i (x ∷ xs) h = ground (arith, row_counted key i xs)

  -- An update of one key: other keys keep their rows.
  pub row_update_other :
      (key : A → ℕ) (i j : ℕ) (p : A → Bool) (f : A → A)
      → ((a : A) → key (f a) ≡ key a)
      → ((a : A) → p a ≡ true → (key a == i) ≡ true)
      → (t : List A) → (j == i) ≡ false
      → row key j (update_where p f t) ≡ row key j t
  unfolding find_first update_where
  row_update_other key i j p f keep only [] ne = refl
  row_update_other key i j p f keep only (x ∷ xs) ne =
      ground (arith, keep x, only x, row_update_other key i j p f keep only xs)

  pub row_update_hit :
      (key : A → ℕ) (i : ℕ) (p : A → Bool) (f : A → A)
      → ((a : A) → key (f a) ≡ key a)
      → (t : List A) (r : A) → row key i t ≡ some r
      → p r ≡ true
      → row key i (update_where p f t) ≡ some (f r)
  row_update_hit key i p f keep t r h hit = rw (row-update_where key p f keep i t, h, hit) refl

  -- A condition of one key that some row meets is met by the row of that key.
  pub row_counted_some :
      (key : A → ℕ) (i : ℕ) (p : A → Bool)
      → ((a : A) → p a ≡ true → (key a == i) ≡ true)
      → (t : List A) → count_where (λ a. key a == i) t ≤ 1
      → (count_where p t == 0) ≡ false
      → (r : A) × (row key i t ≡ some r) × (p r ≡ true)
  row_counted_some key i p only t u h = elim (Option-cases (row key i t)) [
    | inl none_there ↦ ground (arith, count_where-row key i p only t u)
    | inr (r, there) ↦ elim (Bool-cases (p r)) [
      | inl hit ↦ (r, there, hit)
      | inr miss ↦ ground (arith, count_where-row key i p only t u)
    ]
  ]

  pub count_update_hit :
      (key : A → ℕ) (i : ℕ) (p q : A → Bool) (f : A → A)
      → ((a : A) → p a ≡ true → (key a == i) ≡ true)
      → (t : List A) (r : A) → count_where (λ a. key a == i) t ≤ 1
      → row key i t ≡ some r
      → p r ≡ true
      → count_where q (update_where p f t) + flag (q r) ≡ count_where q t + flag (q (f r))
  count_update_hit key i p q f only t r u h hit =
      ground (arith, count_where_update key i p q f only t u)

  -- What holds of the row of each key, once the row of one key is known.
  pub flag_here :
      (key : A → ℕ) (i j : ℕ) (q : A → Bool) (t : List A) (r : A)
      → row key i t ≡ some r
      → flag_of q (row key j t) ≡ (if j == i then flag (q r) else flag_of q (row key j t))
  flag_here key i j q t r h = elim (Bool-cases (j == i)) [
    | inl e ↦ rw (e, ==→eq j i e, h) refl
    | inr ne ↦ rw ne refl
  ]

  pub flag_update :
      (key : A → ℕ) (i j : ℕ) (p q : A → Bool) (f : A → A)
      → ((a : A) → key (f a) ≡ key a)
      → ((a : A) → p a ≡ true → (key a == i) ≡ true)
      → (t : List A) (r : A) → row key i t ≡ some r
      → p r ≡ true
      → flag_of q (row key j (update_where p f t))
        ≡ (if j == i then flag (q (f r)) else flag_of q (row key j t))
  flag_update key i j p q f keep only t r h hit = elim (Bool-cases (j == i)) [
    | inl e ↦ rw (e, ==→eq j i e, row_update_hit key i p f keep t r h hit) refl
    | inr ne ↦ rw (ne, row_update_other key i j p f keep only t ne) refl
  ]

  -- A row that meets a condition is counted.
  pub row_counts :
      (key : A → ℕ) (i : ℕ) (q : A → Bool) (t : List A) (r : A)
      → row key i t ≡ some r
      → q r ≡ true
      → 1 ≤ count_where q t
  unfolding count_where find_first
  row_counts key i q [] r h meets = cc
  row_counts key i q (x ∷ xs) r h meets = ground (arith, row_counts key i q xs r)

  pub flag_append :
      (key : A → ℕ) (i : ℕ) (q : A → Bool) (t : List A) (r : A)
      → q r ≡ false
      → flag_of q (row key i (t ++ r ∷ [])) ≡ flag_of q (row key i t)
  unfolding find_first
  flag_append key i q [] r miss = ground arith
  flag_append key i q (x ∷ xs) r miss = ground (arith, flag_append key i q xs r miss)

  -- A change of rows that do not meet a condition to such rows.
  pub flag_idle :
      (key : A → ℕ) (i : ℕ) (p q : A → Bool) (f : A → A)
      → ((a : A) → key (f a) ≡ key a)
      → ((a : A) → p a ≡ true → (q a ≡ false) × (q (f a) ≡ false))
      → (t : List A) → flag_of q (row key i (update_where p f t)) ≡ flag_of q (row key i t)
  unfolding find_first update_where
  flag_idle key i p q f keep idle [] = refl
  flag_idle key i p q f keep idle (x ∷ xs) =
      ground (arith, keep x, idle x, flag_idle key i p q f keep idle xs)

  pub flag_same :
      (key : A → ℕ) (i : ℕ) (p q : A → Bool) (f : A → A)
      → ((a : A) → key (f a) ≡ key a)
      → ((a : A) → q (f a) ≡ q a)
      → (t : List A) → flag_of q (row key i (update_where p f t)) ≡ flag_of q (row key i t)
  unfolding find_first update_where
  flag_same key i p q f keep same [] = refl
  flag_same key i p q f keep same (x ∷ xs) =
      ground (arith, keep x, same x, flag_same key i p q f keep same xs)

  -- A condition of one key that the row of the key meets finds that row.
  pub find_first-row :
      (key : A → ℕ) (i : ℕ) (p : A → Bool)
      → ((a : A) → p a ≡ true → (key a == i) ≡ true)
      → (t : List A) (r : A) → row key i t ≡ some r
      → p r ≡ true
      → find_first p t ≡ some r
  unfolding find_first
  find_first-row key i p only [] r h hit = cc
  find_first-row key i p only (x ∷ xs) r h hit =
      ground (arith, only x, find_first-row key i p only xs r)

  -- The first row of a condition that an update does not change.
  pub find_first_updated :
      (p q : A → Bool) (f : A → A)
      → ((a : A) → p (f a) ≡ p a)
      → (t : List A) (m : A) → find_first p t ≡ some m
      → find_first p (update_where q f t) ≡ some (if q m then f m else m)
  unfolding find_first update_where
  find_first_updated p q f same [] m h = cc
  find_first_updated p q f same (x ∷ xs) m h =
      ground (arith, same x, find_first_updated p q f same xs m)

  pub row_append_other :
      (key : A → ℕ) (i : ℕ) (t : List A) (r : A)
      → (key r == i) ≡ false
      → row key i (t ++ r ∷ []) ≡ row key i t
  unfolding find_first
  row_append_other key i [] r other = rw other refl
  row_append_other key i (x ∷ xs) r other = ground (arith, row_append_other key i xs r other)
