-- ===== src/Base/Tests.antt =====
-- Boolean tests on the native numbers, the conditional, and results with exceptions.
use Prim.Native.Nat.{ℕ, ◌≤◌, ◌<◌, compare, Ordering}
use mathlib.Core.Path.{◌≡◌, refl}
use mathlib.Core.Logic.{◌≢◌, ◌↔◌, ◌⊎◌, inl, inr}
use mathlib.Core.Bool.{Bool, true, false}
use mathlib.Core.Option.{Option, none, some}
use native.Mathlib.Omega.{arith}

abbrev pub ltb : ℕ → ℕ → Bool
ltb a b = elim (compare a b) [ Ordering.lt ↦ true | _ ↦ false ]

abbrev pub leb : ℕ → ℕ → Bool
leb a b = elim (compare a b) [ Ordering.gt ↦ false | _ ↦ true ]

infix 50 ◌==◌
abbrev pub ◌==◌ : ℕ → ℕ → Bool
a == b = elim (compare a b) [ Ordering.eq ↦ true | _ ↦ false ]

infix 1 if◌then◌else◌
abbrev pub if◌then◌else◌ {ℓ} : {A : Type ℓ} → Bool → A → A → A
if true then x else y = x
if false then x else y = y

pub ltb→lt : (a b : ℕ) → ltb a b ≡ true → a < b
ltb→lt a b h = ground arith

pub ltb→le : (a b : ℕ) → ltb a b ≡ false → b ≤ a
ltb→le a b h = ground arith

pub lt→ltb : (a b : ℕ) → a < b → ltb a b ≡ true
lt→ltb a b h = ground arith

pub le→ltb : (a b : ℕ) → b ≤ a → ltb a b ≡ false
le→ltb a b h = ground arith

pub ==_iff : (a b : ℕ) → ((a == b) ≡ true) ↔ (a ≡ b)
==_iff a b = ground arith

pub ne→== : (a b : ℕ) → a ≢ b → (a == b) ≡ false
ne→== a b h = ground arith

pub Bool-cases : (b : Bool) → (b ≡ true) ⊎ (b ≡ false)
Bool-cases true = inl refl
Bool-cases false = inr refl

pub Option-cases {ℓ} : {A : Type ℓ} (o : Option A) → (o ≡ none) ⊎ ((a : A) × (o ≡ some a))
Option-cases none = inl refl
Option-cases (some a) = inr (a, refl)

-- The exceptions that the driver throws, and `fault` where the C++ has no defined behaviour, such
-- as a read outside an object or the front of an empty list.
pub data Error : Type 0 where
  ei_error bad_sock_addr socket_failure invalid_argument fault : Error

pub data Result {ℓ} (A : Type ℓ) : Type ℓ where
  ok : A → Result A
  err : Error → Result A

infixl 5 ◌>>=◌
abbrev pub ◌>>=◌ {ℓ κ} : {A : Type ℓ} {B : Type κ} → Result A → (A → Result B) → Result B
ok a >>= f = f a
err e >>= f = err e

-- A call of a C function that reports failure by a non-zero status, checked by the caller.
abbrev pub or_throw {ℓ} : {A : Type ℓ} → Error → Option A → Result A
or_throw e none = err e
or_throw e (some a) = ok a

pub Result-cases {ℓ} :
    {A : Type ℓ} (r : Result A) → ((a : A) × (r ≡ ok a)) ⊎ ((e : Error) × (r ≡ err e))
Result-cases (ok a) = inl (a, refl)
Result-cases (err e) = inr (e, refl)

pub or_throw-ok {ℓ} :
    {A : Type ℓ} (e : Error) (o : Option A) (a : A) → or_throw e o ≡ ok a → o ≡ some a
or_throw-ok e none a h = cc
or_throw-ok e (some b) a h = cc

-- A result that is no error satisfies `P`.
abbrev pub Leaves {ℓ κ} : {A : Type ℓ} → (A → Type κ) → Result A → Type κ
Leaves P (ok a) = P a
Leaves P (err e) = Unit

pub bind-Leaves {ℓ κ μ} :
    {A : Type ℓ} {B : Type κ} (P : B → Type μ) (r : Result A) (k : A → Result B)
    → ((a : A) → r ≡ ok a → Leaves P (k a))
    → Leaves P (r >>= k)
bind-Leaves P (ok a) k next = next a refl
bind-Leaves P (err e) k next = tt

pub either-Leaves {ℓ κ} :
    {A : Type ℓ} (P : A → Type κ) (b : Bool) (x y : Result A)
    → Leaves P x
    → Leaves P y
    → Leaves P (if b then x else y)
either-Leaves P true x y lx ly = lx
either-Leaves P false x y lx ly = ly

pub if-Holds {ℓ κ} :
    {A : Type ℓ} (P : A → Type κ) (b : Bool) (x y : A) → P x → P y → P (if b then x else y)
if-Holds P true x y px py = px
if-Holds P false x y px py = py
