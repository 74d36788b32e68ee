-- ===== src/Prelude/Monad.antt =====
-- What a call of a Rust function can do: return, return an error, panic (an index or a slice out of
-- range), or, in the model only, run out of the fuel of a loop.
use mathlib.Core.Path.{◌≡◌, refl, ap}
use mathlib.Core.Bool.{Bool, true, false}
use mathlib.Core.Option.{Option, none, some}
use profinet_rs.Prelude.Tests.{if◌then◌else◌}
use profinet_rs.Prelude.Errors.{Error}

pub data Exec {ℓ} (A : Type ℓ) : Type ℓ where
  ok : A → Exec A
  err : Error → Exec A
  panic : Exec A
  stuck : Exec A

infixl 5 ◌>>=◌ ◌>>◌
abbrev pub ◌>>=◌ {ℓ κ} : {A : Type ℓ} {B : Type κ} → Exec A → (A → Exec B) → Exec B
ok a >>= f = f a
err e >>= f = err e
panic >>= f = panic
stuck >>= f = stuck

abbrev pub ◌>>◌ {ℓ} : {B : Type ℓ} → Exec (Unit {0}) → Exec B → Exec B
m >> k = m >>= λ _. k

-- `if !test { return Err(e) }`
abbrev pub guard : Bool → Error → Exec (Unit {0})
guard true e = ok tt
guard false e = err e

-- `.ok()` on a `Result`: a panic is no `Err`, and goes on.
abbrev pub to_option {ℓ} : {A : Type ℓ} → Exec A → Exec (Option A)
to_option (ok a) = ok (some a)
to_option (err e) = ok none
to_option panic = panic
to_option stuck = stuck

-- The call comes back, with a value or an error.
abbrev pub Returns {ℓ} : {A : Type ℓ} → Exec A → Type 0
Returns (ok a) = Unit {0}
Returns (err e) = Unit {0}
Returns panic = ⊥
Returns stuck = ⊥

-- The call returns a value, and the value has the property.
abbrev pub Yields {ℓ} : {A : Type ℓ} → Exec A → (A → Type 0) → Type 0
Yields (ok a) P = P a
Yields (err e) P = ⊥
Yields panic P = ⊥
Yields stuck P = ⊥

-- Rules for `>>=`, where the first part stays shut.
pub Returns-bind {ℓ κ} :
    {A : Type ℓ} {B : Type κ} (m : Exec A) (f : A → Exec B) (P : A → Type 0)
    → Yields m P
    → ((a : A) → P a → Returns (f a))
    → Returns (m >>= f)
Returns-bind (ok a) f P h k = k a h
Returns-bind (err e) f P h k = tt
Returns-bind panic f P h k = h
Returns-bind stuck f P h k = h

-- The value of a call that yields one.
pub Yields-ok {ℓ} :
    {A : Type ℓ} (m : Exec A) (P : A → Type 0) → Yields m P → (a : A) × (m ≡ ok a) × P a
Yields-ok (ok a) P h = (a, refl, h)
Yields-ok (err e) P h = absurd h
Yields-ok panic P h = absurd h
Yields-ok stuck P h = absurd h

pub Yields-bind {ℓ κ} :
    {A : Type ℓ} {B : Type κ} (m : Exec A) (f : A → Exec B) (P : A → Type 0) (Q : B → Type 0)
    → Yields m P
    → ((a : A) → P a → Yields (f a) Q)
    → Yields (m >>= f) Q
Yields-bind (ok a) f P Q h k = k a h
Yields-bind (err e) f P Q h k = absurd h
Yields-bind panic f P Q h k = absurd h
Yields-bind stuck f P Q h k = absurd h

pub if-Yields {ℓ} :
    {A : Type ℓ} (t : Bool) (m n : Exec A) (P : A → Type 0)
    → (t ≡ true → Yields m P)
    → (t ≡ false → Yields n P)
    → Yields (if t then m else n) P
if-Yields true m n P h k = h refl
if-Yields false m n P h k = k refl

pub Yields-map {ℓ} :
    {A : Type ℓ} (m : Exec A) (P Q : A → Type 0) → ((a : A) → P a → Q a) → Yields m P → Yields m Q
Yields-map (ok a) P Q k h = k a h
Yields-map (err e) P Q k h = h
Yields-map panic P Q k h = h
Yields-map stuck P Q k h = h

pub Yields-both {ℓ} :
    {A : Type ℓ} (m : Exec A) (P Q : A → Type 0)
    → Yields m P
    → Yields m Q
    → Yields m (λ a. P a × Q a)
Yields-both (ok a) P Q h k = (h, k)
Yields-both (err e) P Q h k = h
Yields-both panic P Q h k = h
Yields-both stuck P Q h k = h

pub Yields-unbind {ℓ κ} :
    {A : Type ℓ} {B : Type κ} (m : Exec A) (f : A → Exec B) (P : B → Type 0)
    → Yields (m >>= f) P
    → Yields m (λ a. Yields (f a) P)
Yields-unbind (ok a) f P h = h
Yields-unbind (err e) f P h = h
Yields-unbind panic f P h = h
Yields-unbind stuck f P h = h

-- A call that yields one value only is that value.
pub Yields-value : {A : Type 0} (m : Exec A) (a : A) → Yields m (λ r. r ≡ a) → m ≡ ok a
Yields-value (ok r) a h = ap ok h
Yields-value (err e) a h = absurd h
Yields-value panic a h = absurd h
Yields-value stuck a h = absurd h

-- The call comes back, and a value that it returns has the property.
abbrev pub Gives {ℓ} : {A : Type ℓ} → Exec A → (A → Type 0) → Type 0
Gives (ok a) P = P a
Gives (err e) P = Unit {0}
Gives panic P = ⊥
Gives stuck P = ⊥

pub Gives-bind {ℓ κ} :
    {A : Type ℓ} {B : Type κ} (m : Exec A) (f : A → Exec B) (P : A → Type 0) (Q : B → Type 0)
    → Gives m P
    → ((a : A) → P a → Gives (f a) Q)
    → Gives (m >>= f) Q
Gives-bind (ok a) f P Q h k = k a h
Gives-bind (err e) f P Q h k = tt
Gives-bind panic f P Q h k = absurd h
Gives-bind stuck f P Q h k = absurd h

pub if-Gives {ℓ} :
    {A : Type ℓ} (t : Bool) (m n : Exec A) (P : A → Type 0)
    → (t ≡ true → Gives m P)
    → (t ≡ false → Gives n P)
    → Gives (if t then m else n) P
if-Gives true m n P h k = h refl
if-Gives false m n P h k = k refl

pub Gives-map {ℓ} :
    {A : Type ℓ} (m : Exec A) (P Q : A → Type 0) → ((a : A) → P a → Q a) → Gives m P → Gives m Q
Gives-map (ok a) P Q k h = k a h
Gives-map (err e) P Q k h = tt
Gives-map panic P Q k h = h
Gives-map stuck P Q k h = h

pub Yields-Gives {ℓ} :
    {A : Type ℓ} (m : Exec A) (P Q : A → Type 0) → Yields m P → ((a : A) → P a → Q a) → Gives m Q
Yields-Gives (ok a) P Q h k = k a h
Yields-Gives (err e) P Q h k = tt
Yields-Gives panic P Q h k = h
Yields-Gives stuck P Q h k = h

-- Where an error is no more than a missing value.
pub to_option-Yields {ℓ} :
    {A : Type ℓ} (m : Exec A) (P : A → Type 0)
    → Gives m P
    → Yields (to_option m) (λ o. elim o [ none ↦ Unit {0} | some a ↦ P a ])
to_option-Yields (ok a) P h = h
to_option-Yields (err e) P h = tt
to_option-Yields panic P h = h
to_option-Yields stuck P h = h
