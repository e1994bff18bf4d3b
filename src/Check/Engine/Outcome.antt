-- ===== src/Check/Engine/Outcome.antt =====
-- What `check` returns, described item by item, with no table of groups and no order of tasks.
use mathlib.Core.List.{Permᴰ}
use panshou.Prelude.{
  ℕ, zero, suc, ◌+◌, ◌<◌, ◌≡◌, refl, sym, ◌∙◌, ap, subst, Bool, false, ◌||◌, Option, none, some,
  List, [], ◌∷◌, map, lookup, inl, arith, get_elem?, length, unwrap_or, All,
}
use panshou.Prelude.Keyed.{absorb_all, has_key, Distinct}
use panshou.Prelude.Perms.{All-perm, any-perm, Distinct-perm}
use panshou.Text.{Text, text_beq_iff, text_eq}
use panshou.Env.{Env}
use panshou.Check.Cache.{CheckResult, Table}
use panshou.Check.Item.{CheckItem, CheckOptions}
use panshou.Check.Engine.{
  UniqueCheck, add_inputs, unique_key, Slots, Grouped, Observed, CheckEngine, invalid_result,
  normalized_of, single, group, empty_slots, check_one, check_all, restore, filled, check,
}
use panshou.Check.Engine.Caching.{check_one_other, check_one_local}
use panshou.Check.Engine.Scatter.{
  Right, AllRight, Below, covers, covers_any, is_filled, restore-Below, restore-is_filled,
  filled_all,
}
use panshou.Check.Engine.Grouping.{
  core, first_of, first_of-gathered, gathered-Distinct, Distinct-first_of, some_covers,
  some_covers-gathered, singles, group-uniques,
}
use panshou.Check.Engine.Origins.{FromItem, AllFrom, gathered-AllFrom, PartOf, PartOf_lem}
use panshou.Check.Engine.Filling.{InvalidRight, group-Below, group_accounts}

module _ (env : Env) (engine : CheckEngine) (o : CheckOptions) (times : ℕ → ℕ)
    (observed : Text → Observed) (table : Table) where
  -- The answer to a unique link when its task is alone with the cache as it was at the start.
  abbrev answer_alone : UniqueCheck → CheckResult
  answer_alone u = (check_one engine o u (observed u.key) table).1

  -- The answer to a valid item among all items: that of the first item with its key, under the item's
  -- own URL.
  abbrev expected_valid : List CheckItem → CheckItem → Text → CheckResult
  expected_valid all item n =
      let own = core (single env o 0 item n) in
      record (answer_alone (unwrap_or (first_of own.key (singles env o 0 all)) own)) {
        url = item.url;
      }

  abbrev expected_one : List CheckItem → ℕ → CheckItem → Option Text → CheckResult
  expected_one all index item none = invalid_result (times index) item
  expected_one all index item (some n) = expected_valid all item n

  -- One result for each item, in the order of the items.
  abbrev pub expected : List CheckItem → ℕ → List CheckItem → List CheckResult
  expected all index [] = []
  expected all index (item ∷ items) =
      expected_one all index item (normalized_of env o item) ∷ expected all (suc index) items

  answers_alone : List UniqueCheck → List (List (ℕ × Text) × CheckResult)
  answers_alone us = map (λ u. (u.inputs, answer_alone u)) us

  check_all-answers :
      (us : List UniqueCheck) (t : Table)
      → Distinct unique_key us
      → All (λ u. lookup u.key t ≡ lookup u.key table) us
      → (check_all engine o observed us t).1 ≡ answers_alone us
  unfolding check_all answers_alone
  check_all-answers [] t d h = refl
  check_all-answers (u ∷ us) t d h = λ i.
      (u.inputs, check_one_local engine o u (observed u.key) t table h.0 i)
      ∷ check_all-answers us (check_one engine o u (observed u.key) t).0 d.1 (later us d.0 h.1) i
    where
      later :
          (vs : List UniqueCheck)
          → has_key unique_key u.key vs ≡ false
          → All (λ v. lookup v.key t ≡ lookup v.key table) vs
          → All
              (λ v. lookup v.key (check_one engine o u (observed u.key) t).0 ≡ lookup v.key table)
              vs
      later [] k h = tt
      later (v ∷ vs) k h = (
        check_one_other engine o u (observed u.key) v.key t
              (ground (arith, text_beq_iff u.key v.key, text_beq_iff v.key u.key))
            ∙ h.0,
        later vs (ground arith) h.1,
      )

  module _ (all : List CheckItem) where
    abbrev wanted : List CheckResult
    wanted = expected all 0 all

    get_elem?-expected :
        (index : ℕ) (items : List CheckItem) (i j : ℕ) (item : CheckItem)
        → get_elem? items i ≡ some item
        → index + i ≡ j
        → get_elem? (expected all index items) i
          ≡ some (expected_one all j item (normalized_of env o item))
    get_elem?-expected index [] i j item h e = absurd (cc)
    get_elem?-expected index (x ∷ items) zero j item h e =
        let here : x ≡ item = ground arith in
        let at : index ≡ j = omega arith in
        λ d. some (expected_one all (at d) (here d) (normalized_of env o (here d)))
    get_elem?-expected index (x ∷ items) (suc i) j item h e =
        get_elem?-expected (suc index) items i j item h (omega arith)

    PartOf-InvalidRight :
        (index : ℕ) (items : List CheckItem)
        → (PartOf env o all) index items
        → InvalidRight env o times wanted index items
    PartOf-InvalidRight index [] p = tt
    PartOf-InvalidRight index (item ∷ items) p = (
      λ e.
          get_elem?-expected 0 all index index item p.0 (omega arith)
          ∙ ap (λ n. some (expected_one all index item n)) e,
      PartOf-InvalidRight (suc index) items p.1,
    )

    answer_alone-core : (u : UniqueCheck) → answer_alone (core u) ≡ answer_alone u
    unfolding check_one
    answer_alone-core u = refl

    FromItem-Right :
        (u : UniqueCheck) (p : ℕ × Text)
        → first_of u.key (singles env o 0 all) ≡ some (core u)
        → (FromItem env o all) u.key p
        → Right wanted p.0 (record (answer_alone u) { url = p.1 })
    FromItem-Right u p first f =
        let own = core (single env o 0 f.item f.normalized) in
        let found : first_of own.key (singles env o 0 all) ≡ some (core u) =
          ap (λ k. first_of k (singles env o 0 all)) f.same_key ∙ first in
        get_elem?-expected 0 all p.0 p.0 f.item f.at (omega arith)
        ∙ ap (λ n. some (expected_one all p.0 f.item n)) f.valid
        ∙ ap (λ v. some (record (answer_alone (unwrap_or v own)) { url = f.item.url })) found
        ∙ λ i. some (record (answer_alone-core u i) { url = sym f.same_url i })

    AllFrom-AllRight :
        (u : UniqueCheck) (ps : List (ℕ × Text))
        → first_of u.key (singles env o 0 all) ≡ some (core u)
        → All ((FromItem env o all) u.key) ps
        → AllRight wanted (answer_alone u) ps
    AllFrom-AllRight u [] first f = tt
    AllFrom-AllRight u (p ∷ ps) first f =
        (FromItem-Right u p first f.0, AllFrom-AllRight u ps first f.1)

    abbrev gathered : List UniqueCheck
    gathered = absorb_all unique_key add_inputs [] (singles env o 0 all)

    abbrev RightRow : UniqueCheck → Type 0
    RightRow u = AllRight wanted (answer_alone u) u.inputs

    rows-Right :
        (us : List UniqueCheck)
        → All (λ u. first_of u.key gathered ≡ some (core u)) us
        → All (AllFrom env o all) us
        → All RightRow us
    rows-Right [] h f = tt
    rows-Right (u ∷ us) h f = (
      AllFrom-AllRight u u.inputs (sym (first_of-gathered u.key (singles env o 0 all)) ∙ h.0) f.0,
      rows-Right us h.1 f.1,
    )

    gathered-Right : All RightRow gathered
    gathered-Right =
        rows-Right gathered (Distinct-first_of gathered (gathered-Distinct (singles env o 0 all)))
          ((gathered-AllFrom env o all) (PartOf_lem env o all))

    answers-Right :
        (us : List UniqueCheck)
        → All RightRow us
        → All (λ a. AllRight wanted a.1 a.0) (answers_alone us)
    unfolding answers_alone
    answers-Right [] h = tt
    answers-Right (u ∷ us) h = (h.0, answers-Right us h.1)

    covers_any-answers :
        (j : ℕ) (us : List UniqueCheck) → covers_any j (answers_alone us) ≡ some_covers j us
    unfolding answers_alone
    covers_any-answers j [] = refl
    covers_any-answers j (u ∷ us) = ap (λ b. covers j u.inputs || b) (covers_any-answers j us)

    empty-Below :
        (index : ℕ) (items : List CheckItem) → Below (expected all index items) (empty_slots items)
    empty-Below index [] = tt
    empty-Below index (item ∷ items) = (inl refl, empty-Below (suc index) items)

    length-expected :
        (index : ℕ) (items : List CheckItem) → length (expected all index items) ≡ length items
    length-expected index [] = refl
    length-expected index (item ∷ items) = ap suc (length-expected (suc index) items)

    start : Grouped
    start = record { slots = empty_slots all; uniques = [] }

    restored :
        (us : List UniqueCheck)
        → Permᴰ gathered us
        → filled (restore (answers_alone us) (group env o times 0 all start).slots) ≡ wanted
    unfolding start
    restored us p =
        filled_all wanted (restore (answers_alone us) slots)
          (restore-Below wanted answers slots right below)
          (λ j lt.
            restore-is_filled wanted answers slots j right below
            ∙ ap (λ b. b || is_filled slots j)
                (covers_any-answers j us
                  ∙ sym (any-perm (λ u. covers j u.inputs) p)
                  ∙ some_covers-gathered j (singles env o 0 all))
            ∙ or_comm (some_covers j (singles env o 0 all)) (is_filled slots j)
            ∙ group_accounts env o times wanted 0 all start j j
                (subst (λ n. j < n) (length-expected 0 all) lt) (omega arith) invalid
                (empty-Below 0 all))
      where
        slots : Slots
        slots = (group env o times 0 all start).slots

        answers : List (List (ℕ × Text) × CheckResult)
        answers = answers_alone us

        invalid : InvalidRight env o times wanted 0 all
        invalid = PartOf-InvalidRight 0 all (PartOf_lem env o all)

        below : Below wanted slots
        below = group-Below env o times wanted 0 all start invalid (empty-Below 0 all)

        right : All (λ a. AllRight wanted a.1 a.0) answers
        right = answers-Right us (All-perm RightRow p gathered-Right)

        or_comm : (a b : Bool) → (a || b) ≡ (b || a)
        or_comm a b = ground arith

    alike_lem : (us : List UniqueCheck) → All (λ u. lookup u.key table ≡ lookup u.key table) us
    alike_lem [] = tt
    alike_lem (u ∷ us) = (refl, alike_lem us)

  -- Whatever the order in which the tasks of the unique links finish, the results are one for each
  -- item, in the order of the items: an invalid item has the result that says so, and a valid one has
  -- its own URL on the answer to the first item with its key, as that task alone would get it from
  -- the cache as it was at the start.
  pub check-expected :
      (finish_order : List UniqueCheck → List UniqueCheck)
      → ((us : List UniqueCheck) → Permᴰ us (finish_order us))
      → (items : List CheckItem)
      → (check env engine o times observed finish_order items table).1 ≡ expected items 0 items
  unfolding check start
  check-expected fo perm [] = refl
  check-expected fo perm (item ∷ items) =
      let all = item ∷ items in
      let same = group-uniques env o times 0 all (start all) in
      let us = fo (gathered all) in
      let d =
        Distinct-perm unique_key (perm (gathered all)) (gathered-Distinct (singles env o 0 all)) in
      ap
        (λ g. filled (
          restore (check_all engine o observed (fo g) table).1
            (group env o times 0 all (start all)).slots))
        same
      ∙ ap (λ a. filled (restore a (group env o times 0 all (start all)).slots))
          (check_all-answers us table d (alike_lem all us))
      ∙ restored all us (perm (gathered all))
