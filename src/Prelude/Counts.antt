-- ===== src/Prelude/Counts.antt =====
-- How often an index occurs in a list of rows that have one, and in an association list.
use Prim.Native.Nat.{ℕ, ◌+◌, ◌≤◌, max}
use mathlib.Core.Path.{◌≡◌, refl, ◌∙◌}
use mathlib.Core.Logic.{◌≢◌, inl, inr, ∥∥₁_elim}
use mathlib.Core.Option.{some}
use mathlib.Core.List.{List, [], ◌∷◌, ◌++◌, Perm, Permᴰ}
use native.Mathlib.Nat.{ℕ_set}
use native.Mathlib.Omega.{arith}
use panshou.Prelude.Tests.{if◌then◌else◌, ◌==◌, Bool-cases}
use panshou.Prelude.Lists.{All}
use panshou.Prelude.Maps.{lookup, insert, remove, nat_eq}
use panshou.Prelude.Sort.Unique.{DistinctIndices}

-- 1 for the index itself.
abbrev pub one_if : ℕ → ℕ → ℕ
one_if j k = if j == k then 1 else 0

module _ {ℓ} {A : Type ℓ} (index : A → ℕ) where
  abbrev pub count : ℕ → List A → ℕ
  count k [] = 0
  count k (x ∷ xs) = one_if (index x) k + count k xs

  pub count-append : (k : ℕ) (xs ys : List A) → count k (xs ++ ys) ≡ count k xs + count k ys
  count-append k [] ys = omega arith
  count-append k (x ∷ xs) ys = omega (arith, count-append k xs ys)

  count-permuted : (k : ℕ) {xs ys : List A} → Permᴰ xs ys → count k xs ≡ count k ys
  count-permuted k Permᴰ.nil = refl
  count-permuted k (Permᴰ.cons {a = a} {b = b} e p) =
      λ i. one_if (index (e i)) k + count-permuted k p i
  count-permuted k (Permᴰ.swap {a = a} {b = b} {l = l} e f) =
      swap_sum (one_if (index a) k) (one_if (index b) k) (count k l) ∙ λ i.
      one_if (index (f i)) k + (one_if (index (e i)) k + count k l)
    where
      swap_sum : (a b c : ℕ) → a + (b + c) ≡ b + (a + c)
      swap_sum a b c = omega arith
  count-permuted k (Permᴰ.trans p q) = count-permuted k p ∙ count-permuted k q

  pub count-perm : (k : ℕ) {xs ys : List A} → Perm xs ys → count k xs ≡ count k ys
  count-perm k {xs} {ys} p = ∥∥₁_elim p (ℕ_set (count k xs) (count k ys)) (count-permuted k)

  absent : (j : ℕ) (xs : List A) → count j xs ≤ 0 → All (λ y. j ≢ index y) xs
  absent j [] h = tt
  absent j (x ∷ xs) h = ((λ e. absurd (ground arith)), absent j xs (omega (arith, h)))

  -- Indices that occur at most once are distinct.
  pub count-DistinctIndices : (xs : List A) → ((k : ℕ) → count k xs ≤ 1) → DistinctIndices index xs
  count-DistinctIndices [] h = tt
  count-DistinctIndices (x ∷ xs) h = (
    absent (index x) xs (ground (arith, h (index x))),
    count-DistinctIndices xs (λ k. omega (arith, h k)),
  )

module _ {ℓ} {V : Type ℓ} where
  abbrev pub key_of_pair : ℕ × V → ℕ
  key_of_pair p = p.0

  pub count-insert :
      (j k : ℕ) (v : V) (m : List (ℕ × V))
      → count key_of_pair k (insert j v m) ≤ max (count key_of_pair k m) (one_if j k)
  unfolding insert
  count-insert j k v [] = ground arith
  count-insert j k v ((i, w) ∷ m) = ground (arith, count-insert j k v m)

  pub count-remove :
      (j k : ℕ) (m : List (ℕ × V))
      → count key_of_pair k (remove j m) ≡ (if j == k then 0 else count key_of_pair k m)
  unfolding remove
  count-remove j k [] = ground arith
  count-remove j k ((i, w) ∷ m) = ground (arith, count-remove j k m)

  pub count-lookup :
      (j k : ℕ) (m : List (ℕ × V)) {v : V}
      → lookup j m ≡ some v
      → one_if j k ≤ count key_of_pair k m
  unfolding lookup
  count-lookup j k [] {v} h = absurd (ground arith)
  count-lookup j k ((i, w) ∷ m) {v} h = elim (Bool-cases (i == j)) [
    | inl e ↦ ground arith
    | inr e ↦
        let rest : lookup j m ≡ some v = ground arith in omega (arith, count-lookup j k m rest)
  ]
