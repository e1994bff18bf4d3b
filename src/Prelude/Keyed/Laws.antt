-- ===== src/Prelude/Keyed/Laws.antt =====
-- What gathering by key guarantees, whatever rows are combined.
use mathlib.Core.Path.{◌≡◌, refl, sym, ◌∙◌, ap}
use mathlib.Core.Logic.{inl, inr}
use mathlib.Core.Bool.{false, ◌||◌}
use mathlib.Core.List.{List, [], ◌∷◌, ◌++◌, append_assoc, append-nil}
use native.Mathlib.Omega.{arith}
use panshou.Prelude.Tests.{Bool-cases}
use panshou.Prelude.Lists.{All}
use panshou.Prelude.Maps.{Eq}
use panshou.Prelude.Keyed.{absorb, absorb_all, has_key, Distinct}

module _ {ℓ κ} {K : Type κ} {A : Type ℓ} ⦃e : Eq K⦄ (key : A → K) (combine : A → A → A) where
  -- A property of all rows that combining keeps.
  pub absorb_all-All {μ} :
      (P : A → Type μ)
      → ((old a : A) → key old ≡ key a → P old → P a → P (combine old a))
      → (rows as' : List A) → All P rows
      → All P as'
      → All P (absorb_all key combine rows as')
  absorb_all-All P keep rows [] h k = h
  absorb_all-All P keep rows (a ∷ as') h k =
      absorb_all-All P keep (absorb key combine rows a) as' (absorb-All rows a h k.0) k.1
    where
      absorb-All : (rows : List A) (a : A) → All P rows → P a → All P (absorb key combine rows a)
      absorb-All [] a h p = (p, tt)
      absorb-All (x ∷ xs) a h p = elim (Bool-cases (e.beq (key x) (key a))) [
        | inl same ↦ rw same (keep x a ((e.beq_iff (key x) (key a)).0 same) h.0 p, h.1)
        | inr other ↦ rw other (h.0, absorb-All xs a h.1 p)
      ]

  module _ (keeps : (old a : A) → key old ≡ key a → key (combine old a) ≡ key old) where
    has_key-absorb :
        (k : K) (rows : List A) (a : A)
        → has_key key k (absorb key combine rows a) ≡ (has_key key k rows || e.beq (key a) k)
    has_key-absorb k [] a = ground arith
    has_key-absorb k (x ∷ xs) a = elim (Bool-cases (e.beq (key x) (key a))) [
      | inl same ↦
          let keys = (e.beq_iff (key x) (key a)).0 same in rw (same, keeps x a keys) (ground arith)
      | inr other ↦ rw other (ground (arith, has_key-absorb k xs a))
    ]

    absorb-Distinct :
        (rows : List A) (a : A) → Distinct key rows → Distinct key (absorb key combine rows a)
    absorb-Distinct [] a h = (refl, tt)
    absorb-Distinct (x ∷ xs) a h = elim (Bool-cases (e.beq (key x) (key a))) [
      | inl same ↦ let keys = (e.beq_iff (key x) (key a)).0 same in rw (same, keeps x a keys) h
      | inr other ↦ rw other (
        (has_key-absorb (key x) xs a
            ∙ ground (arith, e.beq_iff (key x) (key a), e.beq_iff (key a) (key x), h.0)),
        absorb-Distinct xs a h.1,
      )
    ]

    pub absorb_all-Distinct :
        (rows as' : List A) → Distinct key rows → Distinct key (absorb_all key combine rows as')
    absorb_all-Distinct rows [] h = h
    absorb_all-Distinct rows (a ∷ as') h =
        absorb_all-Distinct (absorb key combine rows a) as' (absorb-Distinct rows a h)

    -- The rows of a key exist exactly where an input or an earlier row has it.
    pub has_key-absorb_all :
        (k : K) (rows as' : List A)
        → has_key key k (absorb_all key combine rows as')
          ≡ (has_key key k rows || has_key key k as')
    has_key-absorb_all k rows [] = ground arith
    has_key-absorb_all k rows (a ∷ as') =
        ground
          (arith, has_key-absorb_all k (absorb key combine rows a) as', has_key-absorb k rows a)

  absorb_new :
      (rows : List A) (a : A)
      → has_key key (key a) rows ≡ false
      → absorb key combine rows a ≡ rows ++ a ∷ []
  absorb_new [] a h = refl
  absorb_new (x ∷ xs) a h = ground (arith, absorb_new xs a)

  has_key-append :
      (k : K) (xs ys : List A) → has_key key k (xs ++ ys) ≡ (has_key key k xs || has_key key k ys)
  has_key-append k [] ys = refl
  has_key-append k (x ∷ xs) ys = ground (arith, has_key-append k xs ys)

  absorb_all-Distinct' :
      (rows as' : List A)
      → All (λ a. has_key key (key a) rows ≡ false) as'
      → Distinct key as'
      → absorb_all key combine rows as' ≡ rows ++ as'
  absorb_all-Distinct' rows [] h d = sym (append-nil rows)
  absorb_all-Distinct' rows (a ∷ as') h d =
      ap (λ r. absorb_all key combine r as') (absorb_new rows a h.0)
      ∙ absorb_all-Distinct' (rows ++ a ∷ []) as' (apart as' h.1 d.0) d.1
      ∙ append_assoc rows (a ∷ []) as'
    where
      apart :
          (bs : List A)
          → All (λ b. has_key key (key b) rows ≡ false) bs
          → has_key key (key a) bs ≡ false
          → All (λ b. has_key key (key b) (rows ++ a ∷ []) ≡ false) bs
      apart [] h k = tt
      apart (b ∷ bs) h k = (
        has_key-append (key b) rows (a ∷ [])
            ∙ ground (arith, h.0, e.beq_iff (key a) (key b), e.beq_iff (key b) (key a)),
        apart bs h.1 (ground arith),
      )

  -- Rows with distinct keys are gathered as they are.
  pub absorb_all_of_Distinct :
      (as' : List A) → Distinct key as' → absorb_all key combine [] as' ≡ as'
  absorb_all_of_Distinct as' d = absorb_all-Distinct' [] as' (none_yet as') d
    where
      none_yet : (bs : List A) → All (λ b. has_key key (key b) [] ≡ false) bs
      none_yet [] = tt
      none_yet (b ∷ bs) = (refl, none_yet bs)
