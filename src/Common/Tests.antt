-- ===== src/Common/Tests.antt =====
-- Boolean tests on numbers and options, the conditional, and results of code that may throw.
use Prim.Native.Nat.{ℕ, ◌≤◌, ◌<◌, compare, Ordering}
use mathlib.Core.Path.{◌≡◌, refl, subst}
use mathlib.Core.Logic.{◌⊎◌, inl, inr}
use mathlib.Core.Bool.{Bool, true, false}
use mathlib.Core.Option.{Option, none, some}
use native.Mathlib.Omega.{arith}

abbrev pub ltb : ℕ → ℕ → Bool
ltb a b = elim (compare a b) [ Ordering.lt ↦ true | _ ↦ false ]

abbrev pub leb : ℕ → ℕ → Bool
leb a b = elim (compare a b) [ Ordering.gt ↦ false | _ ↦ true ]

infix 50 ◌==◌
abbrev pub ◌==◌ : ℕ → ℕ → Bool
a == b = elim (compare a b) [ Ordering.eq ↦ true | _ ↦ false ]

infix 1 if◌then◌else◌
abbrev pub if◌then◌else◌ {ℓ} : {A : Type ℓ} → Bool → A → A → A
if true then x else y = x
if false then x else y = y

ltb→lt : (a b : ℕ) → ltb a b ≡ true → a < b
ltb→lt a b h = ground arith

leb→le : (a b : ℕ) → leb a b ≡ true → a ≤ b
leb→le a b h = ground arith

pub ==→eq : (a b : ℕ) → (a == b) ≡ true → a ≡ b
==→eq a b h = ground arith

pub ==_refl : (a : ℕ) → (a == a) ≡ true
==_refl a = ground arith

pub Bool-cases : (b : Bool) → (b ≡ true) ⊎ (b ≡ false)
Bool-cases true = inl refl
Bool-cases false = inr refl

pub Option-cases {ℓ} : {A : Type ℓ} (o : Option A) → (o ≡ none) ⊎ ((a : A) × (o ≡ some a))
Option-cases none = inl refl
Option-cases (some a) = inr (a, refl)

-- A function that returns or throws. A transaction is such a function from the store to the new
-- store: what it throws rolls its writes back, so an error carries no store.
pub data Result {ℓ κ} (Err : Type κ) (V : Type ℓ) : Type (ℓ ⊔ κ) where
  throws : Err → Result Err V
  ok : V → Result Err V

-- `if (!value) throw …`.
abbrev pub or_throw {ℓ κ} : {Err : Type κ} {V : Type ℓ} → Option V → Err → Result Err V
or_throw (some v) err = ok v
or_throw none err = throws err

pub or_throw-eq-ok {ℓ κ} :
    {Err : Type κ} {V : Type ℓ} (o : Option V) (err : Err) {v : V}
    → or_throw o err ≡ ok v
    → o ≡ some v
or_throw-eq-ok (some w) err h = cc
or_throw-eq-ok none err h = cc

infixl 5 ◌>>=◌
abbrev pub ◌>>=◌ {ℓ κ τ} :
    {Err : Type τ} {V : Type ℓ} {W : Type κ} → Result Err V → (V → Result Err W) → Result Err W
throws err >>= next = throws err
ok v >>= next = next v

-- Inversion of a bind that returns.
pub >>=-eq-ok {ℓ κ τ} :
    {Err : Type τ} {V : Type ℓ} {W : Type κ} (r : Result Err V) (next : V → Result Err W) {w : W}
    → (r >>= next) ≡ ok w
    → (v : V) × (r ≡ ok v) × (next v ≡ ok w)
>>=-eq-ok (throws err) next h = cc
>>=-eq-ok (ok v) next h = (v, refl, h)

-- What a code that may throw returns, if it returns, is such that …
abbrev pub Returns {ℓ κ τ} : {Err : Type κ} {V : Type ℓ} → (V → Type τ) → Result Err V → Type τ
Returns P (throws err) = Unit
Returns P (ok v) = P v

pub Returns-ok {ℓ κ τ} :
    {Err : Type κ} {V : Type ℓ} (P : V → Type τ) (r : Result Err V) (v : V)
    → r ≡ ok v
    → Returns P r
    → P v
Returns-ok P r v h holds = subst (Returns P) h holds

pub Returns->>= {ℓ κ τ υ ν} :
    {Err : Type κ} {V : Type ℓ} {W : Type τ} (P : V → Type υ) (Q : W → Type ν) (r : Result Err V)
    (next : V → Result Err W)
    → Returns P r
    → ((v : V) → P v → Returns Q (next v))
    → Returns Q (r >>= next)
Returns->>= P Q (throws err) next holds after = tt
Returns->>= P Q (ok v) next holds after = after v holds

pub Returns-any {ℓ κ τ} : {Err : Type κ} {V : Type ℓ} (r : Result Err V) → Returns (λ v. Unit {τ}) r
Returns-any (throws err) = tt
Returns-any (ok v) = tt

abbrev pub Gives {ℓ τ} : {V : Type ℓ} → (V → Type τ) → Option V → Type τ
Gives P none = Unit
Gives P (some v) = P v

pub Gives-some {ℓ τ} :
    {V : Type ℓ} (P : V → Type τ) (o : Option V) (v : V) → o ≡ some v → Gives P o → P v
Gives-some P o v h holds = subst (Gives P) h holds

-- `a ?? b`.
abbrev pub or_default {ℓ} : {A : Type ℓ} → Option A → A → A
or_default none d = d
or_default (some a) d = a

-- `{ ...previous, ...next }` at one key.
abbrev pub or_else {ℓ} : {A : Type ℓ} → Option A → Option A → Option A
or_else (some a) previous = some a
or_else none previous = previous

abbrev pub is_some {ℓ} : {A : Type ℓ} → Option A → Bool
is_some none = false
is_some (some a) = true

-- Whether an optional number is present and is this one.
abbrev pub has_number : Option ℕ → ℕ → Bool
has_number none n = false
has_number (some m) n = m == n
