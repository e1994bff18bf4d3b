-- ===== src/Check/Engine/Grouping.antt =====
-- The groups that the first loop builds: the slots of the invalid items, and one row for each key.
use panshou.Prelude.{
  ℕ, suc, ◌≡◌, refl, Bool, false, ◌||◌, Option, none, some, List, [], ◌∷◌, ◌++◌, arith, any,
  or_option, All,
}
use panshou.Prelude.Keyed.{absorb, absorb_all, has_key, Distinct}
use panshou.Prelude.Keyed.Laws.{absorb_all-Distinct}
use panshou.Prelude.Keyed.Totals.{IsSum, total, total-absorb_all}
use panshou.Text.{Text, text_beq_iff, text_eq}
use panshou.Env.{Env}
use panshou.Check.Item.{CheckItem, CheckOptions}
use panshou.Check.Engine.{
  UniqueCheck, add_inputs, unique_key, Grouped, normalized_of, single, group_one, group,
}
use panshou.Check.Engine.Scatter.{covers}

-- A row without its inputs.
abbrev pub core : UniqueCheck → UniqueCheck
core u = record u { inputs = [] }

first-IsSum : IsSum or_option none (λ u. some (core u))
first-IsSum = record {
  assoc = assoc;
  unit_left = λ a. refl;
  unit_right = unit_right;
  swap = λ x b c. refl;
}
  where
    assoc : (a b c : Option UniqueCheck) → or_option (or_option a b) c ≡ or_option a (or_option b c)
    assoc none b c = refl
    assoc (some a) b c = refl

    unit_right : (a : Option UniqueCheck) → or_option a none ≡ a
    unit_right none = refl
    unit_right (some a) = refl

-- The first row with a key, without its inputs.
abbrev pub first_of : Text → List UniqueCheck → Option UniqueCheck
first_of k us = total unique_key or_option none (λ u. some (core u)) k us

first_of_absent :
    (k : Text) (us : List UniqueCheck) → has_key unique_key k us ≡ false → first_of k us ≡ none
first_of_absent k [] h = refl
first_of_absent k (u ∷ us) h = ground (arith, first_of_absent k us)

add_inputs-key :
    (old new : UniqueCheck)
    → unique_key old ≡ unique_key new
    → unique_key (add_inputs old new) ≡ unique_key old
add_inputs-key old new h = refl

-- Every gathered row keeps the item of the first of its key.
pub first_of-gathered :
    (k : Text) (us : List UniqueCheck)
    → first_of k (absorb_all unique_key add_inputs [] us) ≡ first_of k us
first_of-gathered k us =
    total-absorb_all unique_key or_option none (λ u. some (core u)) add_inputs add_inputs-key
      (λ old new h. refl) first-IsSum k us

pub gathered-Distinct :
    (us : List UniqueCheck) → Distinct unique_key (absorb_all unique_key add_inputs [] us)
gathered-Distinct us = absorb_all-Distinct unique_key add_inputs add_inputs-key [] us tt

-- In rows with distinct keys every row is the first of its key.
pub Distinct-first_of :
    (us : List UniqueCheck)
    → Distinct unique_key us
    → All (λ u. first_of u.key us ≡ some (core u)) us
Distinct-first_of [] d = tt
Distinct-first_of (u ∷ us) d =
    (rw ((text_beq_iff u.key u.key).1 refl), shift us (Distinct-first_of us d.1) d.0)
  where
    shift :
        (vs : List UniqueCheck)
        → All (λ v. first_of v.key us ≡ some (core v)) vs
        → has_key unique_key u.key vs ≡ false
        → All (λ v. first_of v.key (u ∷ us) ≡ some (core v)) vs
    shift [] h k = tt
    shift (v ∷ vs) h k = (
      ground (arith, h.0, text_beq_iff u.key v.key, text_beq_iff v.key u.key),
      shift vs h.1 (ground arith),
    )

-- The inputs that the rows hold together are those of the ungathered ones.
abbrev pub some_covers : ℕ → List UniqueCheck → Bool
some_covers j us = any (λ u. covers j u.inputs) us

covers-append :
    (j : ℕ) (xs ys : List (ℕ × Text)) → covers j (xs ++ ys) ≡ (covers j xs || covers j ys)
covers-append j [] ys = refl
covers-append j (x ∷ xs) ys = ground (arith, covers-append j xs ys)

some_covers-absorb :
    (j : ℕ) (us : List UniqueCheck) (u : UniqueCheck)
    → some_covers j (absorb unique_key add_inputs us u) ≡ (some_covers j us || covers j u.inputs)
some_covers-absorb j [] u = ground arith
some_covers-absorb j (x ∷ us) u =
    ground (arith, some_covers-absorb j us u, covers-append j x.inputs u.inputs)

some_covers-gathered_from :
    (j : ℕ) (us vs : List UniqueCheck)
    → some_covers j (absorb_all unique_key add_inputs us vs)
      ≡ (some_covers j us || some_covers j vs)
some_covers-gathered_from j us [] = ground arith
some_covers-gathered_from j us (v ∷ vs) = ground (
  arith,
  some_covers-gathered_from j (absorb unique_key add_inputs us v) vs,
  some_covers-absorb j us v,
)

pub some_covers-gathered :
    (j : ℕ) (vs : List UniqueCheck)
    → some_covers j (absorb_all unique_key add_inputs [] vs) ≡ some_covers j vs
some_covers-gathered j vs = some_covers-gathered_from j [] vs

module _ (env : Env) (o : CheckOptions) where
  -- What each valid item adds.
  abbrev pub add_single : ℕ → CheckItem → Option Text → List UniqueCheck → List UniqueCheck
  add_single index item none us = us
  add_single index item (some n) us = single env o index item n ∷ us

  unfoldable pub singles : ℕ → List CheckItem → List UniqueCheck
  singles index [] = []
  singles index (item ∷ items) =
      add_single index item (normalized_of env o item) (singles (suc index) items)

  group_one-uniques :
      (times : ℕ → ℕ) (index : ℕ) (item : CheckItem) (items : List CheckItem) (g : Grouped)
      (n : Option Text)
      → ((g' : Grouped)
          → (group env o times (suc index) items g').uniques
            ≡ absorb_all unique_key add_inputs g'.uniques (singles (suc index) items))
      → (group env o times (suc index) items (group_one env o times index item n g)).uniques
        ≡ absorb_all unique_key add_inputs g.uniques
            (add_single index item n (singles (suc index) items))
  group_one-uniques times index item items g none ih = ih (group_one env o times index item none g)
  group_one-uniques times index item items g (some n) ih =
      ih (group_one env o times index item (some n) g)

  pub group-uniques :
      (times : ℕ → ℕ) (index : ℕ) (items : List CheckItem) (g : Grouped)
      → (group env o times index items g).uniques
        ≡ absorb_all unique_key add_inputs g.uniques (singles index items)
  unfolding group singles
  group-uniques times index [] g = refl
  group-uniques times index (item ∷ items) g =
      group_one-uniques times index item items g (normalized_of env o item)
        (group-uniques times (suc index) items)
