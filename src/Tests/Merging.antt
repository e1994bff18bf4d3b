-- ===== src/Tests/Merging.antt =====
-- Runs of merging, filtering and the query filter on the sample results.
use panshou.Prelude.{◌≡◌, refl, Option, none, some, List, [], ◌∷◌, length, map, All}
use panshou.Text.{Text, text_eq, text}
use panshou.Env.{to_lowercase, lower_from}
use panshou.Core.Cloud.{baidu, quark}
use panshou.Core.Model.{Time, SearchResult, MergedLink}
use panshou.Core.Filter.{FilterOptions, filter_results}
use panshou.Core.Filter.Laws.{Passes, filter_results-Passes}
use panshou.Core.Merge.{
  concat, candidates, lower_keyword, link_key, result_key, completeness_score, merge_search_results,
  merge_links,
}
use panshou.Core.Merge.Results.{best_score, merge_search_results-HasOne}
use panshou.Core.Merge.Links.{has_password, newest, some_password, merge_links-HasOne}
use panshou.Prelude.Keyed.Only.{IsIn, HasOne}
use panshou.Search.Query.{Modes, by_provider}
use panshou.Tests.{sample_env, baidu_url, first_row, second_row}

abbrev rows : List SearchResult
rows = first_row ∷ second_row ∷ []

abbrev batches : List (List SearchResult)
batches = (first_row ∷ []) ∷ (second_row ∷ first_row ∷ []) ∷ []

-- The two spellings of one URL are one link, with the later date and the known password.
two_links :
    map {B = Option Text × Option Time}
      (λ l. (l.password, l.datetime))
      (merge_links sample_env rows none [])
    ≡ (some (text "ab12"), some 20) ∷ (none, some 20) ∷ []
unfolding merge_links
two_links = refl

two_results : length (merge_search_results sample_env batches) ≡ 2
unfolding merge_search_results
two_results = refl

abbrev sample_candidates : List MergedLink
sample_candidates = candidates sample_env (lower_keyword sample_env none) [] rows

merge_links-HasOne_example :
    HasOne
      (link_key sample_env)
      baidu_url
      sample_candidates
      (merge_links sample_env rows none [])
      (λ row.
        (row.datetime ≡ newest sample_env baidu_url sample_candidates)
        × (has_password row ≡ some_password sample_env baidu_url sample_candidates))
merge_links-HasOne_example = merge_links-HasOne sample_env rows none [] baidu_url

merge_search_results-HasOne_example :
    HasOne
      (result_key sample_env)
      (text "1")
      (concat batches)
      (merge_search_results sample_env batches)
      (λ row.
        IsIn row (concat batches)
        × (completeness_score row ≡ best_score sample_env (text "1") (concat batches)))
merge_search_results-HasOne_example = merge_search_results-HasOne sample_env batches (text "1")

abbrev filter_options : FilterOptions
filter_options = record {
  include = text "Alpha" ∷ [];
  exclude = text "extra" ∷ [];
  cloud_types = baidu ∷ quark ∷ [];
}

filtered : map (λ r. length r.links) (filter_results sample_env rows filter_options) ≡ 1 ∷ 1 ∷ []
unfolding filter_results to_lowercase lower_from
filtered = refl

filter_results-Passes_example :
    All (Passes sample_env filter_options) (filter_results sample_env rows filter_options)
filter_results-Passes_example = filter_results-Passes sample_env filter_options rows

abbrev query_modes : Modes
query_modes = (text "other", by_provider) ∷ []
