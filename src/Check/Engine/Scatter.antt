-- ===== src/Check/Engine/Scatter.antt =====
-- Writing answers back to their slots: what is written everywhere as wanted is what was wanted.
use panshou.Prelude.{
  ℕ, zero, suc, ◌<◌, ◌≡◌, ◌⊎◌, refl, ◌∙◌, ap, Bool, true, false, ◌||◌, none, some, List, [], ◌∷◌,
  arith, ◌==◌, any, set, get_elem?, length, All, inr,
}
use panshou.Text.{Text}
use panshou.Check.Cache.{CheckResult}
use panshou.Check.Engine.{Slots, restore_inputs, restore, filled}

-- A write that puts the wanted result into its slot.
abbrev pub Right : List CheckResult → ℕ → CheckResult → Type 0
Right wanted i r = get_elem? wanted i ≡ some r

abbrev pub AllRight : List CheckResult → CheckResult → List (ℕ × Text) → Type 0
AllRight wanted found inputs = All (λ p. Right wanted p.0 (record found { url = p.1 })) inputs

-- A slot is empty or holds what is wanted there; and there are as many.
abbrev pub Below : List CheckResult → Slots → Type 0
Below [] [] = Unit
Below [] (s ∷ ss) = ⊥
Below (w ∷ ws) [] = ⊥
Below (w ∷ ws) (s ∷ ss) = ((s ≡ none) ⊎ (s ≡ some w)) × Below ws ss

abbrev pub is_filled : Slots → ℕ → Bool
is_filled [] i = false
is_filled (none ∷ ss) zero = false
is_filled (some r ∷ ss) zero = true
is_filled (s ∷ ss) (suc i) = is_filled ss i

pub set-Below :
    (wanted : List CheckResult) (slots : Slots) (i : ℕ) (r : CheckResult)
    → Right wanted i r
    → Below wanted slots
    → Below wanted (set slots i (some r))
set-Below [] slots i r h b = absurd (cc)
set-Below (w ∷ ws) [] i r h b = elim b [ ]
set-Below (w ∷ ws) (s ∷ ss) zero r h b = (inr (ground arith), b.1)
set-Below (w ∷ ws) (s ∷ ss) (suc i) r h b = (b.0, set-Below ws ss i r h b.1)

pub set-is_filled :
    (wanted : List CheckResult) (slots : Slots) (i j : ℕ) (r : CheckResult)
    → Right wanted i r
    → Below wanted slots
    → is_filled (set slots i (some r)) j ≡ ((i == j) || is_filled slots j)
set-is_filled [] slots i j r h b = absurd (cc)
set-is_filled (w ∷ ws) [] i j r h b = elim b [ ]
set-is_filled (w ∷ ws) (none ∷ ss) zero zero r h b = refl
set-is_filled (w ∷ ws) (some x ∷ ss) zero zero r h b = refl
set-is_filled (w ∷ ws) (none ∷ ss) zero (suc j) r h b = ground arith
set-is_filled (w ∷ ws) (some x ∷ ss) zero (suc j) r h b = ground arith
set-is_filled (w ∷ ws) (none ∷ ss) (suc i) zero r h b = ground arith
set-is_filled (w ∷ ws) (some x ∷ ss) (suc i) zero r h b = ground arith
set-is_filled (w ∷ ws) (none ∷ ss) (suc i) (suc j) r h b =
    ground (arith, set-is_filled ws ss i j r h b.1)
set-is_filled (w ∷ ws) (some x ∷ ss) (suc i) (suc j) r h b =
    ground (arith, set-is_filled ws ss i j r h b.1)

abbrev pub covers : ℕ → List (ℕ × Text) → Bool
covers j inputs = any (λ p. p.0 == j) inputs

abbrev pub covers_any : ℕ → List (List (ℕ × Text) × CheckResult) → Bool
covers_any j answers = any (λ a. covers j a.0) answers

module _ (wanted : List CheckResult) where
  restore_inputs-Below :
      (found : CheckResult) (inputs : List (ℕ × Text)) (slots : Slots)
      → AllRight wanted found inputs
      → Below wanted slots
      → Below wanted (restore_inputs found inputs slots)
  restore_inputs-Below found [] slots h b = b
  restore_inputs-Below found ((i, url) ∷ inputs) slots h b =
      restore_inputs-Below found inputs (set slots i (some (record found { url = url }))) h.1
        (set-Below wanted slots i (record found { url = url }) h.0 b)

  restore_inputs-is_filled :
      (found : CheckResult) (inputs : List (ℕ × Text)) (slots : Slots) (j : ℕ)
      → AllRight wanted found inputs
      → Below wanted slots
      → is_filled (restore_inputs found inputs slots) j ≡ (covers j inputs || is_filled slots j)
  restore_inputs-is_filled found [] slots j h b = refl
  restore_inputs-is_filled found ((i, url) ∷ inputs) slots j h b =
      let r = record found { url = url } in
      restore_inputs-is_filled found inputs (set slots i (some r)) j h.1
        (set-Below wanted slots i r h.0 b)
      ∙ ap (λ c. covers j inputs || c) (set-is_filled wanted slots i j r h.0 b)
      ∙ swap_or (covers j inputs) (i == j) (is_filled slots j)
    where
      swap_or : (a b c : Bool) → (a || (b || c)) ≡ ((b || a) || c)
      swap_or a b c = ground arith

  pub restore-Below :
      (answers : List (List (ℕ × Text) × CheckResult)) (slots : Slots)
      → All (λ a. AllRight wanted a.1 a.0) answers
      → Below wanted slots
      → Below wanted (restore answers slots)
  restore-Below [] slots h b = b
  restore-Below ((inputs, found) ∷ answers) slots h b =
      restore-Below answers (restore_inputs found inputs slots) h.1
        (restore_inputs-Below found inputs slots h.0 b)

  pub restore-is_filled :
      (answers : List (List (ℕ × Text) × CheckResult)) (slots : Slots) (j : ℕ)
      → All (λ a. AllRight wanted a.1 a.0) answers
      → Below wanted slots
      → is_filled (restore answers slots) j ≡ (covers_any j answers || is_filled slots j)
  restore-is_filled [] slots j h b = refl
  restore-is_filled ((inputs, found) ∷ answers) slots j h b =
      restore-is_filled answers (restore_inputs found inputs slots) j h.1
        (restore_inputs-Below found inputs slots h.0 b)
      ∙ ap (λ c. covers_any j answers || c) (restore_inputs-is_filled found inputs slots j h.0 b)
      ∙ swap_or (covers_any j answers) (covers j inputs) (is_filled slots j)
    where
      swap_or : (a b c : Bool) → (a || (b || c)) ≡ ((b || a) || c)
      swap_or a b c = ground arith

-- Slots that hold only what is wanted and are all filled give back what was wanted.
pub filled_all :
    (wanted : List CheckResult) (slots : Slots)
    → Below wanted slots
    → ((j : ℕ) → j < length wanted → is_filled slots j ≡ true)
    → filled slots ≡ wanted
filled_all [] [] b h = refl
filled_all [] (s ∷ ss) b h = elim b [ ]
filled_all (w ∷ ws) [] b h = elim b [ ]
filled_all (w ∷ ws) (none ∷ ss) b h =
    let full : is_filled (none ∷ ss) 0 ≡ true = h 0 (omega arith) in absurd (cc)
filled_all (w ∷ ws) (some r ∷ ss) b h =
    let same : r ≡ w = ground arith in
    rw same (ap (◌∷◌ w) (filled_all ws ss b.1 (λ j q. h (suc j) (omega arith))))
