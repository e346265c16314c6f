-- ===== src/Common/Tables.antt =====
-- Database tables as lists of rows, with the queries that the code makes through Prisma.
use Prim.Native.Nat.{ℕ, suc, ◌+◌, ◌≤◌, ◌<◌}
use mathlib.Core.Path.{◌≡◌, refl, ap}
use mathlib.Core.Bool.{Bool}
use mathlib.Core.Option
use mathlib.Core.Option.{Option, none, some}
use mathlib.Core.List.{List, [], ◌∷◌, ◌++◌}
use native.Mathlib.Omega.{arith}
use spottex_test.Common.Tests.{◌==◌, leb, if◌then◌else◌}

module _ {ℓ} {A : Type ℓ} where
  abbrev pub length : List A → ℕ
  length [] = 0
  length (x ∷ xs) = suc (length xs)

  -- `findFirst({ where })`, and `findUnique` where the condition is a key.
  unfoldable pub find_first : (A → Bool) → List A → Option A
  find_first p [] = none
  find_first p (x ∷ xs) = if p x then some x else find_first p xs

  -- `findFirst({ where, orderBy: { createdAt: "desc" } })`: rows are appended as they are created.
  unfoldable pub find_last : (A → Bool) → List A → Option A
  find_last p [] = none
  find_last p (x ∷ xs) = elim (find_last p xs) [
    | some y ↦ some y
    | none ↦ if p x then some x else none
  ]

  -- The rows that `updateMany({ where, data })` writes, and their number.
  unfoldable pub update_where : (A → Bool) → (A → A) → List A → List A
  update_where p f [] = []
  update_where p f (x ∷ xs) = (if p x then f x else x) ∷ update_where p f xs

  unfoldable pub count_where : (A → Bool) → List A → ℕ
  count_where p [] = 0
  count_where p (x ∷ xs) = (if p x then 1 else 0) + count_where p xs

  -- `findMany({ where })`.
  unfoldable pub find_many : (A → Bool) → List A → List A
  find_many p [] = []
  find_many p (x ∷ xs) = if p x then x ∷ find_many p xs else find_many p xs

  abbrev pub take : ℕ → List A → List A
  take Prim.Native.Nat.zero xs = []
  take (suc n) [] = []
  take (suc n) (x ∷ xs) = x ∷ take n xs

  -- `orderBy: { key: "asc" }`, where rows of one key keep the order in which they were created.
  insert_by : (A → ℕ) → A → List A → List A
  insert_by key x [] = x ∷ []
  insert_by key x (y ∷ ys) = if leb (key x) (key y) then x ∷ y ∷ ys else y ∷ insert_by key x ys

  unfoldable pub sort_by : (A → ℕ) → List A → List A
  unfolding insert_by
  sort_by key [] = []
  sort_by key (x ∷ xs) = insert_by key x (sort_by key xs)

-- `findUnique({ where: { id } })`.
abbrev pub row {ℓ} : {A : Type ℓ} → (A → ℕ) → ℕ → List A → Option A
row key i t = find_first (λ r. key r == i) t

module _ {ℓ} {A : Type ℓ} where
  pub row-update_where :
      (key : A → ℕ) (p : A → Bool) (f : A → A)
      → ((a : A) → key (f a) ≡ key a)
      → (i : ℕ) (t : List A)
      → row key i (update_where p f t) ≡ Option.map (λ r. if p r then f r else r) (row key i t)
  unfolding find_first update_where
  row-update_where key p f keep i [] = refl
  row-update_where key p f keep i (x ∷ xs) =
      ground (arith, keep x, row-update_where key p f keep i xs)

  pub row-append :
      (key : A → ℕ) (i : ℕ) (t : List A) (x r : A)
      → row key i t ≡ some r
      → row key i (t ++ x ∷ []) ≡ some r
  unfolding find_first
  row-append key i (y ∷ ys) x r h = ground (arith, row-append key i ys x r)
  row-append key i [] x r h = ground arith

  pub row_key : (key : A → ℕ) (i : ℕ) (t : List A) {r : A} → row key i t ≡ some r → key r ≡ i
  unfolding find_first
  row_key key i [] {r = r} h = ground arith
  row_key key i (x ∷ xs) {r = r} h = ground (arith, row_key key i xs {r = r})

  length-update_where :
      (p : A → Bool) (f : A → A) (t : List A) → length (update_where p f t) ≡ length t
  unfolding update_where
  length-update_where p f [] = refl
  length-update_where p f (x ∷ xs) = ap suc (length-update_where p f xs)
