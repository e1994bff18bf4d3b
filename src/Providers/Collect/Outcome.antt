-- ===== src/Providers/Collect/Outcome.antt =====
-- What `collect_partial` returns, whatever the order in which its jobs finish.
use mathlib.Core.List.{Permᴰ}
use panshou.Prelude.{
  ◌≡◌, refl, ◌∙◌, ap, Option, none, some, List, [], ◌∷◌, ◌++◌, map, append-nil, append_assoc,
}
use panshou.Prelude.Sort.{sort_by}
use panshou.Prelude.Sort.Unique.{DistinctIndices, by_index, sort_by-perm_eq}
use panshou.Core.Error.{ProviderError}
use panshou.Core.Model.{SearchResult}
use panshou.Providers.Context.{SearchContext}
use panshou.Providers.Collect.{
  JobResult, ok_row, ok_none, failed, Rows, ok, err, Completion, no_links, tally, collect_partial,
}

-- The error of the first job that gave no row.
abbrev pub first_failure : List JobResult → Option ProviderError
first_failure [] = none
first_failure (ok_row row ∷ rs) = first_failure rs
first_failure (ok_none ∷ rs) = some no_links
first_failure (failed e ∷ rs) = some e

abbrev pub rows_in : List JobResult → List SearchResult
rows_in [] = []
rows_in (ok_row row ∷ rs) = row ∷ rows_in rs
rows_in (_ ∷ rs) = rows_in rs

-- All rows if every job gave one, the first failure otherwise.
abbrev pub verdict : List SearchResult → Option ProviderError → Rows
verdict rows none = ok rows
verdict rows (some e) = err e

tally_failed :
    (rows : List SearchResult) (e : ProviderError) (rs : List JobResult)
    → tally rows (some e) rs ≡ err e
unfolding tally
tally_failed rows e [] = refl
tally_failed rows e (ok_row row ∷ rs) = tally_failed (rows ++ row ∷ []) e rs
tally_failed rows e (ok_none ∷ rs) = tally_failed rows e rs
tally_failed rows e (failed e' ∷ rs) = tally_failed rows e rs

tally-verdict :
    (rows : List SearchResult) (rs : List JobResult)
    → tally rows none rs ≡ verdict (rows ++ rows_in rs) (first_failure rs)
unfolding tally
tally-verdict rows [] = rw append-nil
tally-verdict rows (ok_row row ∷ rs) =
    tally-verdict (rows ++ row ∷ []) rs
    ∙ ap (λ l. verdict l (first_failure rs)) (append_assoc rows (row ∷ []) (rows_in rs))
tally-verdict rows (ok_none ∷ rs) = tally_failed rows no_links rs
tally-verdict rows (failed e ∷ rs) = tally_failed rows e rs

abbrev pub in_index_order : List Completion → List JobResult
in_index_order cs = map (λ c. c.result) (sort_by (by_index (λ c. c.index)) cs)

-- The call returns the rows of all jobs in the order of the jobs, or else the error of the first job
-- in that order that gave no row; the order in which the jobs finished plays no part.
pub collect_partial-verdict :
    (ctx : SearchContext) (finished jobs : List Completion)
    → Permᴰ finished jobs
    → DistinctIndices (λ c. c.index) finished
    → (collect_partial ctx finished).1
      ≡ verdict (rows_in (in_index_order jobs)) (first_failure (in_index_order jobs))
unfolding collect_partial
collect_partial-verdict ctx finished jobs p d =
    tally-verdict [] (in_index_order finished)
    ∙ ap (λ cs. verdict (rows_in (map (λ c. c.result) cs)) (first_failure (map (λ c. c.result) cs)))
        (sort_by-perm_eq (λ c. c.index) p d)
