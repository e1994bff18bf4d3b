-- ===== src/Prelude/Keyed/Totals.antt =====
-- A measure that combining adds up: the total over the rows of a key is that over the inputs.
use mathlib.Core.Path.{◌≡◌, sym, ◌∙◌, ap}
use mathlib.Core.Logic.{inl, inr}
use mathlib.Core.List.{List, [], ◌∷◌}
use panshou.Prelude.Tests.{if◌then◌else◌, Bool-cases}
use panshou.Prelude.Maps.{Eq}
use panshou.Prelude.Keyed.{absorb, absorb_all}

-- Laws of an addition: a monoid, where what is added to a measure may come in either order.
pub record IsSum {ℓ μ} {A : Type ℓ} {M : Type μ} (plus : M → M → M) (unit : M) (measure : A → M)
    : Type (ℓ ⊔ μ) where
  pub assoc : (a b c : M) → plus (plus a b) c ≡ plus a (plus b c)
  pub unit_left : (a : M) → plus unit a ≡ a
  pub unit_right : (a : M) → plus a unit ≡ a
  pub swap : (x : A) (b c : M) → plus (plus (measure x) b) c ≡ plus (plus (measure x) c) b

module _ {ℓ κ μ} {K : Type κ} {A : Type ℓ} {M : Type μ} ⦃e : Eq K⦄ (key : A → K) (plus : M → M → M)
    (unit : M) (measure : A → M) where
  -- The sum of the measures of the rows with the key.
  abbrev pub total : K → List A → M
  total k [] = unit
  total k (x ∷ xs) = plus (if e.beq (key x) k then measure x else unit) (total k xs)

  module _ (combine : A → A → A)
      (keeps : (old a : A) → key old ≡ key a → key (combine old a) ≡ key old)
      (adds : (old a : A)
        → key old ≡ key a
        → measure (combine old a) ≡ plus (measure old) (measure a))
      (laws : IsSum plus unit measure) where
    abbrev at : K → A → M
    at k a = if e.beq (key a) k then measure a else unit

    at-combine :
        (k : K) (old a : A) → key old ≡ key a → at k (combine old a) ≡ plus (at k old) (at k a)
    at-combine k old a h = elim (Bool-cases (e.beq (key a) k)) [
      | inl same ↦ rw (keeps old a h, h, same) (adds old a h)
      | inr other ↦ rw (keeps old a h, h, other) (sym (laws.unit_left unit))
    ]

    swap_right :
        (k : K) (x a : A) (c : M)
        → key x ≡ key a
        → plus (plus (at k x) (at k a)) c ≡ plus (plus (at k x) c) (at k a)
    swap_right k x a c h = elim (Bool-cases (e.beq (key a) k)) [
      | inl same ↦ rw (h, same) (laws.swap x (measure a) c)
      | inr other ↦
          rw (h, other)
            (ap (λ m. plus m c) (laws.unit_right unit) ∙ sym (laws.unit_right (plus unit c)))
    ]

    total-absorb :
        (k : K) (rows : List A) (a : A)
        → total k (absorb key combine rows a) ≡ plus (total k rows) (at k a)
    total-absorb k [] a = laws.unit_right (at k a) ∙ sym (laws.unit_left (at k a))
    total-absorb k (x ∷ xs) a = elim (Bool-cases (e.beq (key x) (key a))) [
      | inl same ↦
          let h = (e.beq_iff (key x) (key a)).0 same in
          rw same
            (ap (λ m. plus m (total k xs)) (at-combine k x a h) ∙ swap_right k x a (total k xs) h)
      | inr other ↦ rw other (
          ap (plus (at k x)) (total-absorb k xs a)
          ∙ sym (laws.assoc (at k x) (total k xs) (at k a)))
    ]

    pub total-absorb_all_from :
        (k : K) (rows as' : List A)
        → total k (absorb_all key combine rows as') ≡ plus (total k rows) (total k as')
    total-absorb_all_from k rows [] = sym (laws.unit_right (total k rows))
    total-absorb_all_from k rows (a ∷ as') =
        total-absorb_all_from k (absorb key combine rows a) as'
        ∙ ap (λ m. plus m (total k as')) (total-absorb k rows a)
        ∙ laws.assoc (total k rows) (at k a) (total k as')

    pub total-absorb_all :
        (k : K) (as' : List A) → total k (absorb_all key combine [] as') ≡ total k as'
    total-absorb_all k as' = total-absorb_all_from k [] as' ∙ laws.unit_left (total k as')
