-- ===== src/Providers/Collect.antt =====
-- `collect_partial` of src/providers/mod.rs. The jobs finish in some order, which is given as a list
-- of the job's index, the time, and the job's result; every completed item is published at once.
pub mod Outcome
use panshou.Prelude.{
  ℕ, ◌≡◌, refl, ◌∙◌, ap, Bool, Option, none, some, List, [], ◌∷◌, ◌++◌, map, leb, arith, unwrap_or,
}
use panshou.Prelude.Sort.{sort_by}
use panshou.Text.{text}
use panshou.Core.Error.{ProviderError, unavailable}
use panshou.Core.Model.{SearchResult}
use panshou.Providers.Context.{SearchContext, publish}

-- `Result<Option<SearchResult>, ProviderError>` of a job, and the result of the whole call.
pub data JobResult : Type 0 where
  ok_row : SearchResult → JobResult
  ok_none : JobResult
  failed : ProviderError → JobResult

pub data Rows : Type 0 where
  ok : List SearchResult → Rows
  err : ProviderError → Rows

pub record Completion : Type 0 where
  pub index : ℕ
  pub at : ℕ
  pub result : JobResult

-- The closure of a job after its await.
abbrev deliver : SearchContext → Completion → SearchContext
deliver ctx c = elim c.result [
  | ok_row row ↦ (publish c.at ctx (row ∷ [])).0
  | ok_none ↦ ctx
  | failed e ↦ ctx
]

abbrev deliver_all : SearchContext → List Completion → SearchContext
deliver_all ctx [] = ctx
deliver_all ctx (c ∷ cs) = deliver_all (deliver ctx c) cs

abbrev pub no_links : ProviderError
no_links = unavailable (text "detail contained no usable links")

-- `get_or_insert`.
abbrev first_or : Option ProviderError → ProviderError → Option ProviderError
first_or none e = some e
first_or (some e) e' = some e

-- The loop over the sorted rows, with `results` and `first_error`.
pub tally : List SearchResult → Option ProviderError → List JobResult → Rows
tally results none [] = ok results
tally results (some e) [] = err e
tally results first (ok_row row ∷ rs) = tally (results ++ row ∷ []) first rs
tally results first (ok_none ∷ rs) = tally results (first_or first no_links) rs
tally results first (failed e ∷ rs) = tally results (first_or first e) rs

unfoldable pub collect_partial : SearchContext → List Completion → SearchContext × Rows
unfolding publish tally sort_by
collect_partial ctx completions = (
  deliver_all ctx completions,
  tally [] none (map (λ c. c.result) (sort_by (λ a b. leb a.index b.index) completions)),
)
