-- ===== src/Prelude/Keyed/Pushing.antt =====
-- Pushing at the end of a list of rows with keys.
use mathlib.Core.Path.{◌≡◌, refl}
use mathlib.Core.Bool.{false, ◌||◌}
use mathlib.Core.List.{List, [], ◌∷◌, ◌++◌}
use native.Mathlib.Omega.{arith}
use panshou.Prelude.Maps.{Eq}
use panshou.Prelude.Keyed.{has_key, Distinct}

module _ {ℓ κ} {K : Type κ} {A : Type ℓ} ⦃e : Eq K⦄ (key : A → K) where
  pub has_key-append :
      (k : K) (xs ys : List A) → has_key key k (xs ++ ys) ≡ (has_key key k xs || has_key key k ys)
  has_key-append k [] ys = refl
  has_key-append k (x ∷ xs) ys = ground (arith, has_key-append k xs ys)

  pub append-Distinct :
      (xs : List A) (a : A)
      → has_key key (key a) xs ≡ false
      → Distinct key xs
      → Distinct key (xs ++ a ∷ [])
  append-Distinct [] a h d = (refl, tt)
  append-Distinct (x ∷ xs) a h d = (
    ground (
      arith,
      has_key-append (key x) xs (a ∷ []),
      e.beq_iff (key x) (key a),
      e.beq_iff (key a) (key x),
      d.0,
    ),
    append-Distinct xs a (ground arith) d.1,
  )
