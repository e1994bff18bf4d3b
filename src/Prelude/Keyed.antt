-- ===== src/Prelude/Keyed.antt =====
-- Loops that gather rows in a `Vec` and keep a `HashMap` from each key to the position of its row:
-- a new key is pushed, a row whose key is known is combined with the row that is there. Beside the
-- loop stands what it means, without positions: `absorb`.
pub mod Laws
pub mod Totals
pub mod Only
pub mod Pushing
use Prim.Native.Nat.{ℕ, zero, suc, ◌+◌, ◌<◌}
use mathlib.Core.Path.{◌≡◌, refl, sym, ◌∙◌, ap}
use mathlib.Core.Logic.{◌⊎◌, inl, inr, ◌↔◌}
use mathlib.Core.Bool.{Bool, true, false, ◌||◌}
use mathlib.Core.Option.{Option, none, some}
use mathlib.Core.List.{List, [], ◌∷◌, ◌++◌, map, append_assoc, append-nil}
use native.Mathlib.Omega.{arith}
use panshou.Prelude.Tests.{if◌then◌else◌, Bool-cases, Option-cases}
use panshou.Prelude.Lists.{length, get_elem?, set, All, any}
use panshou.Prelude.Maps.{Eq, lookup, insert, lookup-insert}

-- The state of the loop.
pub record Rows {ℓ κ} (K : Type κ) (A : Type ℓ) : Type (ℓ ⊔ κ) where
  pub positions : List (K × ℕ)
  pub rows : List A

abbrev pub no_rows {ℓ κ} : {K : Type κ} {A : Type ℓ} → Rows K A
no_rows = record { positions = []; rows = [] }

abbrev next : Option ℕ → Option ℕ
next none = none
next (some i) = some (suc i)

module _ {ℓ κ} {K : Type κ} {A : Type ℓ} ⦃e : Eq K⦄ (key : A → K) where
  -- Where the row of a key stands.
  abbrev index_of : K → List A → Option ℕ
  index_of k [] = none
  index_of k (x ∷ xs) = if e.beq (key x) k then some 0 else next (index_of k xs)

  -- No two rows have one key.
  abbrev pub has_key : K → List A → Bool
  has_key k xs = any (λ x. e.beq (key x) k) xs

  abbrev pub Distinct : List A → Type 0
  Distinct [] = Unit
  Distinct (x ∷ xs) = (has_key (key x) xs ≡ false) × Distinct xs

module _ {ℓ κ} {K : Type κ} {A : Type ℓ} ⦃e : Eq K⦄ (key : A → K) (combine : A → A → A) where
  -- The position is always in range; the model leaves the rows alone where the source would panic.
  pub step : Rows K A → A → Rows K A
  unfolding lookup insert
  step s a = elim (lookup (key a) s.positions) [
    | none ↦ record {
      positions = insert (key a) (length s.rows) s.positions;
      rows = s.rows ++ a ∷ [];
    }
    | some p ↦ elim (get_elem? s.rows p) [
      | none ↦ s
      | some old ↦ record s { rows = set s.rows p (combine old a) }
    ]
  ]

  unfoldable pub gather : Rows K A → List A → Rows K A
  unfolding step
  gather s [] = s
  gather s (a ∷ as') = gather (step s a) as'

  -- The meaning: combine with the row of the same key, or append.
  abbrev pub absorb : List A → A → List A
  absorb [] a = a ∷ []
  absorb (x ∷ xs) a = if e.beq (key x) (key a) then combine x a ∷ xs else x ∷ absorb xs a

  abbrev pub absorb_all : List A → List A → List A
  absorb_all rows [] = rows
  absorb_all rows (a ∷ as') = absorb_all (absorb rows a) as'

  -- The positions are those of the rows.
  abbrev Agrees : Rows K A → Type κ
  Agrees s = (k : K) → lookup k s.positions ≡ index_of key k s.rows

  index_of-append :
      (k : K) (xs : List A) (a : A)
      → index_of key (key a) xs ≡ none
      → index_of key k (xs ++ a ∷ [])
        ≡ (if e.beq (key a) k then some (length xs) else index_of key k xs)
  index_of-append k [] a h = refl
  index_of-append k (x ∷ xs) a h = ground (
    arith,
    e.beq_iff (key a) k,
    e.beq_iff (key x) k,
    e.beq_iff (key x) (key a),
    index_of-append k xs a,
  )

  absorb_new : (xs : List A) (a : A) → index_of key (key a) xs ≡ none → absorb xs a ≡ xs ++ a ∷ []
  absorb_new [] a h = refl
  absorb_new (x ∷ xs) a h = ground (arith, absorb_new xs a)

  absorb_known :
      (xs : List A) (a : A) (p : ℕ)
      → index_of key (key a) xs ≡ some p
      → (old : A) × (get_elem? xs p ≡ some old)
        × (absorb xs a ≡ set xs p (combine old a))
        × (key old ≡ key a)
  absorb_known [] a p h = cc
  absorb_known (x ∷ xs) a p h = elim (Bool-cases (e.beq (key x) (key a))) [
    | inl same ↦
        let at : 0 ≡ p = ground arith in
        rw (← at) (x, refl, ground arith, (e.beq_iff (key x) (key a)).0 same)
    | inr other ↦ elim (Option-cases (index_of key (key a) xs)) [
      | inl missing ↦ absurd (ground arith)
      | inr (q, found) ↦
          let at : suc q ≡ p = ground arith in
          let (old, here, there, same) = absorb_known xs a q found in
          rw (← at) (old, here, ground arith, same)
    ]
  ]

  index_of-set :
      (k : K) (xs : List A) (p : ℕ) (old new : A)
      → get_elem? xs p ≡ some old
      → key new ≡ key old
      → index_of key k (set xs p new) ≡ index_of key k xs
  index_of-set k [] p old new h same = refl
  index_of-set k (x ∷ xs) zero old new h same =
      let here : x ≡ old = ground arith in
      let keys : key new ≡ key x = same ∙ sym (ap key here) in rw keys
  index_of-set k (x ∷ xs) (suc p) old new h same = rw (index_of-set k xs p old new h same)

  -- Combining keeps the key.
  module _ (keeps : (old a : A) → key old ≡ key a → key (combine old a) ≡ key old) where
    step-Agrees : (s : Rows K A) (a : A) → Agrees s → Agrees (step s a)
    unfolding step
    step-Agrees s a h k = elim (Option-cases (index_of key (key a) s.rows)) [
      | inl missing ↦
          rw (h (key a), missing, step)
            (lookup-insert (key a) k (length s.rows) s.positions
              ∙ sym (index_of-append k s.rows a missing ∙ rw (h k)))
      | inr (p, found) ↦
          let (old, here, there, same) = absorb_known s.rows a p found in
          rw (h (key a), found, here, step)
            (h k ∙ sym (index_of-set k s.rows p old (combine old a) here (keeps old a same)))
    ]

    step-absorb : (s : Rows K A) (a : A) → Agrees s → (step s a).rows ≡ absorb s.rows a
    unfolding step
    step-absorb s a h = elim (Option-cases (index_of key (key a) s.rows)) [
      | inl missing ↦ rw (h (key a), missing, step) (sym (absorb_new s.rows a missing))
      | inr (p, found) ↦
          let (old, here, there, same) = absorb_known s.rows a p found in
          rw (h (key a), found, here, step) (sym there)
    ]

    gather_from-absorb :
        (s : Rows K A) (as' : List A) → Agrees s → (gather s as').rows ≡ absorb_all s.rows as'
    unfolding gather
    gather_from-absorb s [] h = refl
    gather_from-absorb s (a ∷ as') h =
        gather_from-absorb (step s a) as' (step-Agrees s a h)
        ∙ ap (λ r. absorb_all r as') (step-absorb s a h)

    -- The loop with positions computes what the plain description says.
    pub gather-absorb : (as' : List A) → (gather no_rows as').rows ≡ absorb_all [] as'
    unfolding lookup
    gather-absorb as' = gather_from-absorb no_rows as' (λ k. refl)
