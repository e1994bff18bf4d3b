-- ===== src/Core/Merge/Results.antt =====
-- Merging result batches: one row for a key, the most complete of its results.
use panshou.Prelude.{
  ℕ, max, tests, ltb→lt, ◌≡◌, refl, sym, ◌∙◌, ap, List, [], ◌∷◌, arith, ltb, Bool-cases, append-nil,
  inl, inr, ◌⊎◌, All, subst,
}
use panshou.Prelude.Keyed.{absorb_all, has_key, Distinct, gather-absorb}
use panshou.Prelude.Keyed.Only.{IsIn, All-IsIn, All-with_key, HasOne, Distinct-HasOne, total_of_one}
use panshou.Prelude.Keyed.Totals.{IsSum, total, total-absorb_all}
use panshou.Prelude.Keyed.Laws.{
  absorb_all-Distinct, absorb_all_of_Distinct, has_key-absorb_all, absorb_all-All,
}
use panshou.Text.{Text, text_eq}
use panshou.Env.{Env}
use panshou.Core.Model.{SearchResult}
use panshou.Core.Merge.{concat, completeness_score, more_complete, result_key, merge_search_results}

max-IsSum : IsSum max 0 completeness_score
max-IsSum = record {
  assoc = λ a b c. omega arith;
  unit_left = λ a. omega arith;
  unit_right = λ a. omega arith;
  swap = λ x b c. omega arith;
}

more_complete-score :
    (old new : SearchResult)
    → completeness_score (more_complete old new)
      ≡ max (completeness_score old) (completeness_score new)
more_complete-score old new =
    elim (Bool-cases (ltb (completeness_score old) (completeness_score new))) [
      | inl e ↦ rw e (omega (tests, ltb→lt (completeness_score old) (completeness_score new) e))
      | inr e ↦ rw e (ground arith)
    ]

module _ (env : Env) where
  -- The reference description: every result meets the row with its key, where the more complete of
  -- the two stays, or is appended.
  abbrev pub merged_rows : List SearchResult → List SearchResult
  merged_rows rs = absorb_all (result_key env) more_complete [] rs

  more_complete-key :
      (old new : SearchResult)
      → result_key env old ≡ result_key env new
      → result_key env (more_complete old new) ≡ result_key env old
  more_complete-key old new h =
      elim (Bool-cases (ltb (completeness_score old) (completeness_score new))) [
        | inl e ↦ rw e (sym h)
        | inr e ↦ rw e
      ]

  -- The loop with the table of positions computes the reference description: each result, in order,
  -- meets the row with its key, where the more complete of the two stays, or is appended.
  pub merge_search_results-rows :
      (batches : List (List SearchResult))
      → merge_search_results env batches ≡ merged_rows (concat batches)
  unfolding merge_search_results
  merge_search_results-rows batches =
      gather-absorb (result_key env) more_complete more_complete-key (concat batches)

  merged_rows-Distinct : (rs : List SearchResult) → Distinct (result_key env) (merged_rows rs)
  merged_rows-Distinct rs =
      absorb_all-Distinct (result_key env) more_complete more_complete-key [] rs tt

  merged_rows_twice : (rs : List SearchResult) → merged_rows (merged_rows rs) ≡ merged_rows rs
  merged_rows_twice rs =
      absorb_all_of_Distinct (result_key env) more_complete (merged_rows rs)
        (merged_rows-Distinct rs)

  -- No two merged results have the same key, and merging the outcome again returns it.
  pub merge_search_results-Distinct :
      (batches : List (List SearchResult))
      → Distinct (result_key env) (merge_search_results env batches)
        × (merge_search_results env (merge_search_results env batches ∷ [])
            ≡ merge_search_results env batches)
  merge_search_results-Distinct batches = rw (merge_search_results-rows batches) (
    merged_rows-Distinct (concat batches),
    merge_search_results-rows (merged_rows (concat batches) ∷ [])
        ∙ ap merged_rows (append-nil (merged_rows (concat batches)))
        ∙ merged_rows_twice (concat batches),
  )

  -- The best completeness score among the results with a key, 0 if there are none.
  abbrev pub best_score : Text → List SearchResult → ℕ
  best_score k rs = total (result_key env) max 0 completeness_score k rs

  -- Merging keeps the best score of every key.
  best_score-merge_search_results :
      (batches : List (List SearchResult)) (k : Text)
      → best_score k (merge_search_results env batches) ≡ best_score k (concat batches)
  best_score-merge_search_results batches k =
      ap (best_score k) (merge_search_results-rows batches)
      ∙ total-absorb_all (result_key env) max 0 completeness_score more_complete more_complete-key
          (λ old new h. more_complete-score old new) max-IsSum k (concat batches)

  more_complete_of :
      (old new : SearchResult) → (more_complete old new ≡ old) ⊎ (more_complete old new ≡ new)
  more_complete_of old new =
      elim (Bool-cases (ltb (completeness_score old) (completeness_score new))) [
        | inl e ↦ inr (rw e refl)
        | inr e ↦ inl (rw e refl)
      ]

  merge_search_results-All :
      (batches : List (List SearchResult))
      → All (λ row. IsIn row (concat batches)) (merge_search_results env batches)
  merge_search_results-All batches = rw (merge_search_results-rows batches) (
      absorb_all-All (result_key env) more_complete (λ row. IsIn row (concat batches))
        (λ old new same h k. elim (more_complete_of old new) [
          | inl e ↦ subst (λ r. IsIn r (concat batches)) (sym e) h
          | inr e ↦ subst (λ r. IsIn r (concat batches)) (sym e) k
        ])
        [] (concat batches) tt
        (All-IsIn (λ r. IsIn r (concat batches)) (concat batches) (λ r held. held)))

  -- A key that no result has is the key of no merged row. One that some result has is the key of
  -- exactly one merged row, which is one of the results, and as complete as the most complete result
  -- with the key.
  pub merge_search_results-HasOne :
      (batches : List (List SearchResult)) (k : Text)
      → HasOne (result_key env) k (concat batches) (merge_search_results env batches) (λ row.
        IsIn row (concat batches) × (completeness_score row ≡ best_score k (concat batches)))
  merge_search_results-HasOne batches k =
      let rows = merge_search_results env batches in
      Distinct-HasOne (result_key env)
        (λ row.
          IsIn row (concat batches) × (completeness_score row ≡ best_score k (concat batches)))
        k (concat batches) rows ((merge_search_results-Distinct batches).0)
        (ap (has_key (result_key env) k) (merge_search_results-rows batches)
          ∙ has_key-absorb_all (result_key env) more_complete more_complete-key k []
              (concat batches))
        (λ row only. (
          All-with_key (result_key env) (λ r. IsIn r (concat batches)) k rows row
              (merge_search_results-All batches) only,
          total_of_one (result_key env) max 0 completeness_score max-IsSum k rows row only
              ∙ best_score-merge_search_results batches k,
        ))
