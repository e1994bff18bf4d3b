-- ===== src/Prelude/Sort/Unique.antt =====
-- Sorting by an index that no two elements share: the outcome does not depend on the order in which
-- the elements came.
use Prim.Native.Nat.{ℕ}
use mathlib.Core.Path.{◌≡◌, refl, sym, ◌∙◌, ap, subst}
use mathlib.Core.Logic.{◌≢◌}
use mathlib.Core.Bool.{Bool}
use mathlib.Core.List.{List, [], ◌∷◌, Permᴰ}
use native.Mathlib.Omega.{arith}
use panshou.Prelude.Tests.{leb}
use panshou.Prelude.Lists.{All}
use panshou.Prelude.Perms.{All-perm}
use panshou.Prelude.Sort.{insert_sorted, sort_by}

module _ {ℓ} {A : Type ℓ} (index : A → ℕ) where
  abbrev pub by_index : A → A → Bool
  by_index a b = leb (index a) (index b)

  abbrev pub DistinctIndices : List A → Type 0
  DistinctIndices [] = Unit
  DistinctIndices (x ∷ xs) = All (λ y. index x ≢ index y) xs × DistinctIndices xs

  insert_sorted_comm :
      (a b : A) (xs : List A)
      → index a ≢ index b
      → insert_sorted by_index a (insert_sorted by_index b xs)
        ≡ insert_sorted by_index b (insert_sorted by_index a xs)
  unfolding insert_sorted
  insert_sorted_comm a b [] h = ground arith
  insert_sorted_comm a b (x ∷ xs) h = ground (arith, insert_sorted_comm a b xs h)

  DistinctIndices-perm : {xs ys : List A} → Permᴰ xs ys → DistinctIndices xs → DistinctIndices ys
  DistinctIndices-perm Permᴰ.nil h = h
  DistinctIndices-perm (Permᴰ.cons {a = a} e p) h =
      (rw (← e) (All-perm (λ y. index a ≢ index y) p h.0), DistinctIndices-perm p h.1)
  DistinctIndices-perm (Permᴰ.swap {l = l} e f) h = (
    (
      λ q. h.0.0 (ap index e ∙ sym q ∙ sym (ap index f)),
      subst (λ c. All (λ y. index c ≢ index y) l) f h.1.0,
    ),
    (subst (λ c. All (λ y. index c ≢ index y) l) e h.0.1, h.1.1),
  )
  DistinctIndices-perm (Permᴰ.trans p q) h = DistinctIndices-perm q (DistinctIndices-perm p h)

  -- Two orders of arrival sort to the same list.
  pub sort_by-perm_eq :
      {xs ys : List A}
      → Permᴰ xs ys
      → DistinctIndices xs
      → sort_by by_index xs ≡ sort_by by_index ys
  unfolding sort_by
  sort_by-perm_eq Permᴰ.nil h = refl
  sort_by-perm_eq (Permᴰ.cons {b = b} e p) h =
      rw e (ap (insert_sorted by_index b) (sort_by-perm_eq p h.1))
  sort_by-perm_eq (Permᴰ.swap {a = a} {b = b} {l = l} e f) h =
      rw (← e, ← f) (insert_sorted_comm a b (sort_by by_index l) h.0.0)
  sort_by-perm_eq (Permᴰ.trans p q) h =
      sort_by-perm_eq p h ∙ sort_by-perm_eq q (DistinctIndices-perm p h)
