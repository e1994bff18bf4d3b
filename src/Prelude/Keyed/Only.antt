-- ===== src/Prelude/Keyed/Only.antt =====
-- The one row of a key among rows with distinct keys, and the measures that it then carries.
use mathlib.Core.Path.{◌≡◌, refl, sym, ◌∙◌, ap, subst}
use mathlib.Core.Logic.{inl, inr}
use mathlib.Core.Bool.{true, false}
use mathlib.Core.List.{List, [], ◌∷◌}
use native.Mathlib.Omega.{arith}
use panshou.Prelude.Tests.{Bool-cases}
use panshou.Prelude.Lists.{retain, get_elem?, All, All-retain}
use mathlib.Core.Option.{some}
use Prim.Native.Nat.{ℕ, suc}
use panshou.Prelude.Maps.{Eq}
use panshou.Prelude.Keyed.{has_key, Distinct}
use panshou.Prelude.Keyed.Totals.{IsSum, total}

-- An element at some position.
abbrev pub IsIn {ℓ} : {A : Type ℓ} → A → List A → Type ℓ
IsIn {A = A} a xs = (i : ℕ) × (get_elem? xs i ≡ some a)

pub All-IsIn {ℓ κ} :
    {A : Type ℓ} (P : A → Type κ) (xs : List A) → ((a : A) → IsIn a xs → P a) → All P xs
All-IsIn P [] h = tt
All-IsIn P (x ∷ xs) h = (h x (0, refl), All-IsIn P xs (λ a (i, at). h a (suc i, at)))

module _ {ℓ κ} {K : Type κ} {A : Type ℓ} ⦃e : Eq K⦄ (key : A → K) where
  abbrev pub with_key : K → List A → List A
  with_key k xs = retain (λ x. e.beq (key x) k) xs

  -- A key that is found has exactly one row, and that has a property; another has none.
  abbrev pub HasOne {μ} : K → (found rows : List A) → (A → Type μ) → Type (ℓ ⊔ μ)
  HasOne k found rows P =
      (has_key key k found ≡ false → with_key k rows ≡ [])
      × (has_key key k found ≡ true → (row : A) × (with_key k rows ≡ row ∷ []) × P row)

  with_key_none : (k : K) (xs : List A) → has_key key k xs ≡ false → with_key k xs ≡ []
  with_key_none k [] h = refl
  with_key_none k (x ∷ xs) h = ground (arith, with_key_none k xs)

  with_key_one :
      (k : K) (xs : List A)
      → Distinct key xs
      → has_key key k xs ≡ true
      → (row : A) × (with_key k xs ≡ row ∷ [])
  with_key_one k [] d h = cc
  with_key_one k (x ∷ xs) d h = elim (Bool-cases (e.beq (key x) k)) [
    | inl same ↦
        let here : key x ≡ k = (e.beq_iff (key x) k).0 same in
        (
          x,
          rw same
              (ap (λ l. x ∷ l) (with_key_none k xs (ap (λ j. has_key key j xs) (sym here) ∙ d.0))),
        )
    | inr other ↦ let (row, only) = with_key_one k xs d.1 (ground arith) in (row, rw other only)
  ]

  pub Distinct-HasOne {μ} :
      (P : A → Type μ) (k : K) (found rows : List A)
      → Distinct key rows
      → has_key key k rows ≡ has_key key k found
      → ((row : A) → with_key k rows ≡ row ∷ [] → P row)
      → HasOne k found rows P
  Distinct-HasOne P k found rows d h p = (
    λ none_found. with_key_none k rows (h ∙ none_found),
    λ some_found.
        let (row, only) = with_key_one k rows d (h ∙ some_found) in (row, only, p row only),
  )

  pub All-with_key {μ} :
      (P : A → Type μ) (k : K) (xs : List A) (row : A) → All P xs → with_key k xs ≡ row ∷ [] → P row
  All-with_key P k xs row h only = (subst (All P) only (All-retain P (λ x. e.beq (key x) k) xs h)).0

  module _ {μ} {M : Type μ} (plus : M → M → M) (unit : M) (measure : A → M)
      (laws : IsSum plus unit measure) where
    abbrev sum : List A → M
    sum [] = unit
    sum (x ∷ xs) = plus (measure x) (sum xs)

    total-with_key : (k : K) (xs : List A) → total key plus unit measure k xs ≡ sum (with_key k xs)
    total-with_key k [] = refl
    total-with_key k (x ∷ xs) = elim (Bool-cases (e.beq (key x) k)) [
      | inl same ↦ rw same (ap (plus (measure x)) (total-with_key k xs))
      | inr other ↦
          rw other (laws.unit_left (total key plus unit measure k xs) ∙ total-with_key k xs)
    ]

    pub total_of_one :
        (k : K) (xs : List A) (row : A)
        → with_key k xs ≡ row ∷ []
        → measure row ≡ total key plus unit measure k xs
    total_of_one k xs row h =
        sym (laws.unit_right (measure row)) ∙ sym (ap sum h) ∙ sym (total-with_key k xs)
