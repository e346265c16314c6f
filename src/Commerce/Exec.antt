-- ===== src/Commerce/Exec.antt =====
-- Actions on the store that commit as they go: what was written before an error stays written. A
-- transaction is run in one by `committed`, and commits all of its writes or none.
use spottex_test.Common.{Result, ok, throws, ◌≡◌, refl, arith}
use spottex_test.Commerce.Store.{Store, CommerceError}

abbrev pub Exec : Type 0 → Type 0
Exec A = Store → Result CommerceError A × Store

abbrev pub pure : {A : Type 0} → A → Exec A
pure a s = (ok a, s)

abbrev pub raise : {A : Type 0} → CommerceError → Exec A
raise e s = (throws e, s)

abbrev continue : {A B : Type 0} → Result CommerceError A → (A → Exec B) → Exec B
continue (ok a) f s = f a s
continue (throws e) f s = (throws e, s)

infixl 5 ◌>>=◌ ◌>>◌
abbrev pub ◌>>=◌ : {A B : Type 0} → Exec A → (A → Exec B) → Exec B
◌>>=◌ m f s = let (r, s') = m s in continue r f s'

abbrev pub ◌>>◌ : {B : Type 0} → Exec (Unit {0}) → Exec B → Exec B
m >> n = m >>= λ _. n

-- `prisma.$transaction`.
abbrev pub committed : {A : Type 0} → (Store → Result CommerceError (A × Store)) → Exec A
committed t s = elim (t s) [ ok (a, s') ↦ (ok a, s') | throws e ↦ (throws e, s) ]

-- A single write, or a transaction with no result.
abbrev pub commits : (Store → Result CommerceError Store) → Exec (Unit {0})
commits t s = elim (t s) [ ok s' ↦ (ok tt, s') | throws e ↦ (throws e, s) ]

abbrev pub write : (Store → Store) → Exec (Unit {0})
write f s = (ok tt, f s)

abbrev pub catch : {A : Type 0} → Exec A → Exec A → Exec A
catch m h s = elim ((m s).0) [ ok a ↦ m s | throws e ↦ h (m s).1 ]

continue-returns :
    {A B : Type 0} (r : Result CommerceError A) (t : Store) (f : A → Exec B) {b : B} {s' : Store}
    → continue r f t ≡ (ok b, s')
    → (a : A) × (u : Store) × (◌≡◌ {A = Result CommerceError A × Store} (r, t) (ok a, u))
      × (f a u ≡ (ok b, s'))
continue-returns (ok a) t f h = (a, t, refl, h)
continue-returns (throws e) t f h = absurd (ground arith)

-- Inversion of actions that return.
pub >>=-returns :
    {A B : Type 0} (m : Exec A) (f : A → Exec B) (s : Store) {b : B} {s' : Store}
    → (m >>= f) s ≡ (ok b, s')
    → (a : A) × (t : Store) × (m s ≡ (ok a, t)) × (f a t ≡ (ok b, s'))
>>=-returns m f s h = continue-returns (m s).0 (m s).1 f h

pub commits-returns :
    (t : Store → Result CommerceError Store) (s : Store) {u : Unit {0}} {s' : Store}
    → commits t s ≡ (ok u, s')
    → t s ≡ ok s'
commits-returns t s h = ground arith

pub committed-returns :
    {A : Type 0} (t : Store → Result CommerceError (A × Store)) (s : Store) {a : A} {s' : Store}
    → committed t s ≡ (ok a, s')
    → t s ≡ ok (a, s')
committed-returns t s h = ground arith
