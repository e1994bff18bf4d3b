-- ===== src/Prelude/Results.antt =====
-- `Result` with its `?` operator, as a `do` block.
use mathlib.Core.Path.{◌≡◌, refl}
use mathlib.Core.Logic.{◌⊎◌, inl, inr}
use mathlib.Core.Bool.{Bool, true, false, not}
use native.Mathlib.Omega.{arith}
use mathlib.Core.Option.{Option, none, some}

pub data Result {ℓ κ} (E : Type ℓ) (A : Type κ) : Type (ℓ ⊔ κ) where
  ok : A → Result E A
  err : E → Result E A

module _ {ε} {E : Type ε} where
  infixl 5 ◌>>=◌ ◌>>◌
  abbrev pub ◌>>=◌ {ℓ κ} : {A : Type ℓ} {B : Type κ} → Result E A → (A → Result E B) → Result E B
  ok a >>= f = f a
  err e >>= f = err e

  abbrev pub ◌>>◌ {ℓ κ} : {A : Type ℓ} {B : Type κ} → Result E A → Result E B → Result E B
  m >> k = m >>= λ _. k

  -- An early `return Err(e)`.
  abbrev pub fail_if : Bool → E → Result E (Unit {0})
  fail_if true e = err e
  fail_if false e = ok tt

  -- `ok_or`.
  abbrev pub ok_or {ℓ} : {A : Type ℓ} → Option A → E → Result E A
  ok_or none e = err e
  ok_or (some a) e = ok a

  abbrev pub is_ok {ℓ} : {A : Type ℓ} → Result E A → Bool
  is_ok (ok a) = true
  is_ok (err e) = false

  abbrev pub map_err {ℓ φ} : {A : Type ℓ} {F : Type φ} → (E → F) → Result E A → Result F A
  map_err f (ok a) = ok a
  map_err f (err e) = err (f e)

  -- What a block returned comes from its first step.
  pub >>=-eq_ok {ℓ κ} :
      {A : Type ℓ} {B : Type κ} (m : Result E A) (f : A → Result E B) {b : B}
      → (m >>= f) ≡ ok b
      → (a : A) × (m ≡ ok a) × (f a ≡ ok b)
  >>=-eq_ok (ok a) f h = (a, refl, h)
  >>=-eq_ok (err e) f h = cc

  pub Result-cases {ℓ} :
      {A : Type ℓ} (r : Result E A) → ((a : A) × (r ≡ ok a)) ⊎ ((e : E) × (r ≡ err e))
  Result-cases (ok a) = inl (a, refl)
  Result-cases (err e) = inr (e, refl)

  pub map_err-eq_ok {ℓ φ} :
      {A : Type ℓ} {F : Type φ} (f : E → F) (r : Result E A) {a : A} → map_err f r ≡ ok a → r ≡ ok a
  map_err-eq_ok f (ok b) h = ground arith
  map_err-eq_ok f (err e) h = cc

  pub >>=-ext {ℓ κ} :
      {A : Type ℓ} {B : Type κ} (m : Result E A) {f g : A → Result E B}
      → ((a : A) → f a ≡ g a)
      → (m >>= f) ≡ (m >>= g)
  >>=-ext (ok a) h = h a
  >>=-ext (err e) h = refl

  -- What returned passed its checks.
  pub fail_if-eq_ok {ℓ} :
      {B : Type ℓ} (c : Bool) (e : E) (f : Unit {0} → Result E B) {b : B}
      → (fail_if c e >>= f) ≡ ok b
      → (c ≡ false) × (f tt ≡ ok b)
  fail_if-eq_ok true e f h = cc
  fail_if-eq_ok false e f h = (refl, h)

  pub require-eq_ok {ℓ} :
      {B : Type ℓ} (c : Bool) (e : E) (f : Unit {0} → Result E B) {b : B}
      → (fail_if (not c) e >>= f) ≡ ok b
      → (c ≡ true) × (f tt ≡ ok b)
  require-eq_ok true e f h = (refl, h)
  require-eq_ok false e f h = cc

  pub passed : (c : Bool) (e : E) {u : Unit {0}} → fail_if (not c) e ≡ ok u → c ≡ true
  passed true e h = refl
  passed false e h = cc

  pub ok_or-eq_ok {ℓ κ} :
      {A : Type ℓ} {B : Type κ} (o : Option A) (e : E) (f : A → Result E B) {b : B}
      → (ok_or o e >>= f) ≡ ok b
      → (a : A) × (o ≡ some a) × (f a ≡ ok b)
  ok_or-eq_ok none e f h = cc
  ok_or-eq_ok (some a) e f h = (a, refl, h)

pub mapped-eq_ok {ε φ ℓ κ} :
    {E : Type ε} {F : Type φ} {A : Type ℓ} {B : Type κ} (g : F → E) (r : Result F A)
    (f : A → Result E B) {b : B}
    → (map_err g r >>= f) ≡ ok b
    → (a : A) × (r ≡ ok a) × (f a ≡ ok b)
mapped-eq_ok g (ok a) f h = (a, refl, h)
mapped-eq_ok g (err e) f h = cc
