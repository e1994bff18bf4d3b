-- ===== src/Search/Conclude.antt =====
-- What follows the loop of `run` in src/search/engine.rs: the snapshots of the sources that did not
-- finish, the summary, and the outcome.
pub mod Accounts
pub mod Order
pub mod Stream
use panshou.Prelude.{
  ℕ, ◌+◌, ◌-◌, Bool, List, [], ◌∷◌, ◌++◌, ◌==◌, ltb, map, if◌then◌else◌, length, unwrap_or, lookup,
  insert, Option, none, some,
}
use panshou.Prelude.Sort.{sort_by}
use panshou.Prelude.Sort.Unique.{by_index}
use panshou.Text.{Text, text_eq}
use panshou.Env.{Env}
use panshou.Core.Model.{Time, SearchResult, MergedLink}
use panshou.Core.Cloud.{to_string}
use panshou.Core.Rank.{rank_results}
use panshou.Core.Merge.{merge_search_results, merge_links}
use panshou.Providers.Context.{SearchContext, finish}
use panshou.Search.Query.{SourceError}
use panshou.Search.Options.{SearchOptions, priorities, queue_of}
use panshou.Search.Emit.{
  FinishReason, completed, deadline, interrupted, SearchSummary, SearchEvent, summary, Emission,
  send, emit_links,
}
use panshou.Search.Loop.{
  Batches, SearchState, initial, Turn, rows_in_batches, prepare, Ended, ended, waiting, impossible,
  run_loop,
}

pub exit_code : SearchSummary → ℕ
exit_code s = elim s.finish_reason [
  | deadline ↦ 124
  | interrupted ↦ 130
  | completed ↦ if s.sources_completed == 0 then 3 else 0
]

pub record SearchOutcome : Type 0 where
  pub query : Text
  pub total_results : ℕ
  pub total_links : ℕ
  pub results : List SearchResult
  -- By cloud type; the keys of the `BTreeMap` are only ordered when it is printed.
  pub links_by_type : List (Text × List MergedLink)
  pub source_errors : List SourceError
  pub successful_sources : ℕ

-- A pair by its index.
abbrev pub index_of_pair {ℓ} : {A : Type ℓ} → ℕ × A → ℕ
index_of_pair p = p.0

abbrev pub by_pair {ℓ} : {A : Type ℓ} → ℕ × A → ℕ × A → Bool
by_pair a b = by_index index_of_pair a b

-- `sort_by_key(|(index, _)| *index)`.
abbrev pub sort_pairs {ℓ} : {A : Type ℓ} → List (ℕ × A) → List (ℕ × A)
sort_pairs xs = sort_by by_pair xs

abbrev add_by_type : List (Text × List MergedLink) → List MergedLink → List (Text × List MergedLink)
add_by_type m [] = m
add_by_type m (link ∷ links) =
    let type = to_string link.cloud_type in
    add_by_type (insert type (unwrap_or (lookup type m) [] ++ link ∷ []) m) links

pub summarize : ℕ → FinishReason → SearchState → SearchSummary
summarize selected reason s = record {
  total_links = length s.emission.emitted;
  sources_selected = selected;
  sources_completed = s.successful_sources;
  sources_failed = length s.errors;
  sources_cancelled = s.sources_started - s.successful_sources - length s.errors;
  sources_not_started = selected - s.sources_started;
  partial = ltb s.successful_sources selected;
  finish_reason = reason;
}

abbrev errors_of : List (ℕ × SourceError) → List SourceError
errors_of [] = []
errors_of (e ∷ es) = e.1 ∷ errors_of es

pub record Finished : Type 0 where
  pub outcome : SearchOutcome
  pub summarized : SearchSummary
  pub events : List SearchEvent

module _ (env : Env) (options : SearchOptions) where
  abbrev pub snapshot_batches : Time → List (ℕ × SearchContext) → Batches
  snapshot_batches now [] = []
  snapshot_batches now ((index, ctx) ∷ snapshots) =
      (index, prepare env options now (finish env ctx []).1) ∷ snapshot_batches now snapshots

  -- The batches of the finished sources and those of the collectors that are left, by index.
  pub all_batches : Time → SearchState → Batches
  unfolding finish prepare sort_by
  all_batches now s = sort_pairs (s.batches ++ snapshot_batches now (sort_pairs s.collectors))

  -- The outcome from the sorted batches and errors.
  final_results : Time → Batches → List SearchResult
  unfolding merge_search_results rank_results priorities
  final_results now batches =
      rank_results env (rows_in_batches env batches) now (priorities options)

  pub outcome_of :
      (total : ℕ) → Time → Batches → List (ℕ × SourceError) → (successful : ℕ) → SearchOutcome
  unfolding final_results merge_links
  outcome_of total now batches errors successful =
      let results = final_results now batches in
      record {
        query = options.query;
        total_results = length results;
        total_links = total;
        results = results;
        links_by_type = add_by_type [] (merge_links env results none options.clouds);
        source_errors = errors_of errors;
        successful_sources = successful;
      }

module _ (env : Env) (options : SearchOptions) (has_sender : Bool) where
  -- The state after the last loop over links.
  pub last_links : Time → SearchState → SearchState
  unfolding all_batches merge_search_results merge_links emit_links
  last_links now s =
      let batches = all_batches env options now s in
      record s {
        batches = batches;
        emission =
            emit_links env has_sender s.emission
              (merge_links env (rows_in_batches env batches) none options.clouds);
      }

  -- `snapshot_now` and `rank_now` are the times that are read for the two rankings.
  pub conclude : ℕ → FinishReason → (snapshot_now rank_now : Time) → SearchState → Finished
  unfolding last_links summarize outcome_of sort_by
  conclude selected reason snapshot_now rank_now s =
      let t = last_links snapshot_now s in
      let summarized = summarize selected reason t in
      record {
        outcome =
            outcome_of env options summarized.total_links rank_now (sort_pairs t.batches)
              (sort_pairs t.errors) t.successful_sources;
        summarized = summarized;
        events = (send has_sender (summary summarized) t.emission).events;
      }

  -- A search whose turns do not end it, or describe no behaviour, comes to nothing.
  abbrev pub conclude_end : ℕ → (snapshot_now rank_now : Time) → Ended → Option Finished
  conclude_end selected snapshot_now rank_now (ended reason s) =
      some (conclude selected reason snapshot_now rank_now s)
  conclude_end selected snapshot_now rank_now (waiting s) = none
  conclude_end selected snapshot_now rank_now impossible = none

  -- `run`: started at an instant, until its turns end.
  unfoldable pub run : (started : ℕ) → List Turn → (snapshot_now rank_now : Time) → Option Finished
  unfolding run_loop conclude queue_of
  run started turns snapshot_now rank_now =
      let selected = length (queue_of options) in
      conclude_end selected snapshot_now rank_now (
        run_loop env options has_sender (started + options.all_timeout) selected turns
          (initial options))
