-- ===== src/Search/Conclude/Order.antt =====
-- The outcome of a search and the order in which its sources finished.
use mathlib.Core.List.{Permᴰ}
use mathlib.Core.List.Permᴰ
use panshou.Prelude.{ℕ, List, ◌++◌}
use panshou.Env.{Env}
use panshou.Core.Model.{Time}
use panshou.Search.Options.{SearchOptions}
use panshou.Search.Loop.{Batches, SearchState}
use panshou.Search.Conclude.{SearchOutcome, sort_pairs, snapshot_batches, all_batches, outcome_of}

-- An outcome but for the number of links, which is the number of those emitted on the way.
abbrev pub but_total_links : SearchOutcome → SearchOutcome
but_total_links outcome = record outcome { total_links = 0 }

module _ (env : Env) (options : SearchOptions) where
  -- The outcome that `conclude` builds from a state.
  abbrev pub outcome_at : ℕ → (snapshot_now rank_now : Time) → SearchState → SearchOutcome
  outcome_at total snapshot_now rank_now s =
      outcome_of env options total rank_now (sort_pairs (all_batches env options snapshot_now s))
        (sort_pairs s.errors) s.successful_sources

  -- The batches before they are sorted.
  abbrev gathered : Time → SearchState → Batches
  gathered now s = s.batches ++ snapshot_batches env options now (sort_pairs s.collectors)
