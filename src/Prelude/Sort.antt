-- ===== src/Prelude/Sort.antt =====
-- `slice::sort_by` and `sort_by_key`: stable sorting. Every stable sort returns the same list, so
-- the model is the insertion sort; `before a b` says that `a` may stand left of `b`.
pub mod Unique
use mathlib.Core.Path.{◌≡◌, refl}
use mathlib.Core.Logic.{◌⊎◌, inl, inr}
use mathlib.Core.Bool.{Bool, true, false}
use mathlib.Core.List.{List, [], ◌∷◌, Perm}
use mathlib.Core.List.Perm
use native.Mathlib.Omega.{arith}
use panshou.Prelude.Tests.{if◌then◌else◌, Bool-cases}
use panshou.Prelude.Lists.{All, retain}

module _ {ℓ} {A : Type ℓ} (before : A → A → Bool) where
  insert_sorted : A → List A → List A
  insert_sorted a [] = a ∷ []
  insert_sorted a (x ∷ xs) = if before a x then a ∷ x ∷ xs else x ∷ insert_sorted a xs

  -- From the right, so that an element goes before the equal ones that followed it.
  unfoldable pub sort_by : List A → List A
  unfolding insert_sorted
  sort_by [] = []
  sort_by (x ∷ xs) = insert_sorted x (sort_by xs)

  -- Every element may stand left of all that follow it.
  abbrev pub IsSorted : List A → Type ℓ
  IsSorted [] = Unit
  IsSorted (x ∷ xs) = All (λ y. before x y ≡ true) xs × IsSorted xs

  insert_sorted-perm : (a : A) (xs : List A) → Perm (insert_sorted a xs) (a ∷ xs)
  unfolding insert_sorted
  insert_sorted-perm a [] = Perm.refl _
  insert_sorted-perm a (x ∷ xs) = elim (Bool-cases (before a x)) [
    | inl e ↦ rw e (Perm.refl _)
    | inr e ↦ rw e (Perm.trans (Perm.cons x (insert_sorted-perm a xs)) (Perm.swap a x xs))
  ]

  pub sort_by-perm : (xs : List A) → Perm (sort_by xs) xs
  unfolding sort_by
  sort_by-perm [] = Perm.refl _
  sort_by-perm (x ∷ xs) =
      Perm.trans (insert_sorted-perm x (sort_by xs)) (Perm.cons x (sort_by-perm xs))

  -- An order that is total and transitive sorts.
  module _ (total : (a b : A) → (before a b ≡ true) ⊎ (before b a ≡ true))
      (trans : (a b c : A) → before a b ≡ true → before b c ≡ true → before a c ≡ true) where
    All-before :
        (a x : A) (xs : List A)
        → before a x ≡ true
        → All (λ y. before x y ≡ true) xs
        → All (λ y. before a y ≡ true) xs
    All-before a x [] h k = tt
    All-before a x (y ∷ ys) h k = (trans a x y h k.0, All-before a x ys h k.1)

    All-insert_sorted :
        (x a : A) (xs : List A)
        → before x a ≡ true
        → All (λ y. before x y ≡ true) xs
        → All (λ y. before x y ≡ true) (insert_sorted a xs)
    unfolding insert_sorted
    All-insert_sorted x a [] h k = (h, tt)
    All-insert_sorted x a (y ∷ ys) h k = elim (Bool-cases (before a y)) [
      | inl e ↦ rw e (h, k)
      | inr e ↦ rw e (k.0, All-insert_sorted x a ys h k.1)
    ]

    insert_sorted-IsSorted : (a : A) (xs : List A) → IsSorted xs → IsSorted (insert_sorted a xs)
    unfolding insert_sorted
    insert_sorted-IsSorted a [] h = (tt, tt)
    insert_sorted-IsSorted a (x ∷ xs) h = elim (Bool-cases (before a x)) [
      | inl e ↦ rw e ((e, All-before a x xs e h.0), h)
      | inr e ↦ rw e (elim (total x a) [
        | inl k ↦ (All-insert_sorted x a xs k h.0, insert_sorted-IsSorted a xs h.1)
        | inr k ↦ absurd (cc)
      ])
    ]

    pub sort_by-IsSorted : (xs : List A) → IsSorted (sort_by xs)
    unfolding sort_by
    sort_by-IsSorted [] = tt
    sort_by-IsSorted (x ∷ xs) = insert_sorted-IsSorted x (sort_by xs) (sort_by-IsSorted xs)

  -- Elements that may stand in either order keep the order that they had: `p` picks a class of
  -- them.
  module _ (p : A → Bool) (same : (a b : A) → p a ≡ true → p b ≡ true → before a b ≡ true) where
    retain-insert_sorted_in :
        (a : A) (xs : List A) → p a ≡ true → retain p (insert_sorted a xs) ≡ a ∷ retain p xs
    unfolding insert_sorted
    retain-insert_sorted_in a [] h = ground arith
    retain-insert_sorted_in a (x ∷ xs) h =
        ground (arith, same a x h, retain-insert_sorted_in a xs h)

    retain-insert_sorted_out :
        (a : A) (xs : List A) → p a ≡ false → retain p (insert_sorted a xs) ≡ retain p xs
    unfolding insert_sorted
    retain-insert_sorted_out a [] h = ground arith
    retain-insert_sorted_out a (x ∷ xs) h = ground (arith, retain-insert_sorted_out a xs h)

    pub retain-sort_by : (xs : List A) → retain p (sort_by xs) ≡ retain p xs
    unfolding sort_by
    retain-sort_by [] = refl
    retain-sort_by (x ∷ xs) = elim (Bool-cases (p x)) [
      | inl e ↦ rw (e, retain-insert_sorted_in x (sort_by xs) e, retain-sort_by xs)
      | inr e ↦ rw (e, retain-insert_sorted_out x (sort_by xs) e) (retain-sort_by xs)
    ]
