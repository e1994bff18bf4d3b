-- ===== src/Search/Loop.antt =====
-- The loop of `run` in src/search/engine.rs. What the outside decides is the list of turns: for
-- each pass of the loop, whether it is interrupted, what the running sources do while it waits, and
-- what it wakes up on. Instants are numbers of nanoseconds, `now` in a task's start among them.
pub mod Counts
pub mod Indices
pub mod Passes
use panshou.Prelude.{
  ℕ, zero, suc, ◌+◌, ◌-◌, min, max, Bool, true, false, not, ◌&&◌, Option, none, some, List, [], ◌∷◌,
  ◌++◌, ◌==◌, ltb, if◌then◌else◌, is_empty, length, lookup, insert, remove, nat_eq,
}
use panshou.Text.{Text}
use panshou.Env.{Env}
use panshou.Core.Model.{Time, SearchResult}
use panshou.Core.Rank.{rank_results}
use panshou.Core.Filter.{filter_results}
use panshou.Core.Merge.{merge_search_results, merge_links, concat}
use panshou.Providers.Context.{SearchContext, for_source, publish, finish}
use panshou.Search.Query.{
  SourceError, source_error, SourceOutcome, batch, failed, Polled, source_result,
  apply_query_filter,
}
use panshou.Search.Options.{
  SearchOptions, priorities, modes, filter_options, Task, panic_message, queue_of,
}
use panshou.Search.Emit.{
  FinishReason, completed, deadline, interrupted, error, progress, Emission, nothing_emitted, send,
  emit_links,
}

-- A task in `FuturesUnordered`; it is started by the first poll of it.
pub record Running : Type 0 where
  pub task : Task
  pub started : Bool

abbrev pub Batches : Type 0
Batches = List (ℕ × List SearchResult)

pub record SearchState : Type 0 where
  pub queue : List Task
  pub tasks : List Running
  pub sources_started : ℕ
  pub collectors : List (ℕ × SearchContext)
  pub batches : Batches
  pub errors : List (ℕ × SourceError)
  pub emission : Emission
  pub successful_sources : ℕ

-- What a running source does while the loop waits: its first poll, or a publication of results.
pub data Move : Type 0 where
  start : (index now : ℕ) → Move
  publishes : (index now : ℕ) → List SearchResult → Move

-- What `select!` returns: the deadline, a cancellation or a closed receiver, or a finished task
-- with what became of its search. (`next` returns no task only if there is none, which the loop has
-- ruled out.)
pub data Wake : Type 0 where
  deadline_passed cancelled closed : Wake
  finished : (index : ℕ) → Polled → (late : Bool) → Wake

pub record Turn : Type 0 where
  pub interrupted_before : Bool
  pub moves : List Move
  pub wake : Wake
  -- The checks after `select!`.
  pub interrupted_after : Bool
  pub past_deadline : Bool
  pub now : Time

abbrev pub initial : SearchOptions → SearchState
initial options = record {
  queue = queue_of options;
  tasks = [];
  sources_started = 0;
  collectors = [];
  batches = [];
  errors = [];
  emission = nothing_emitted;
  successful_sources = 0;
}

-- The inner loop over a queue and the tasks: at most `jobs.max(1)` tasks.
abbrev pub fill_from : ℕ → List Task → List Running → List Task × List Running
fill_from jobs [] tasks = ([], tasks)
fill_from jobs (t ∷ queue) tasks =
    let rest = fill_from jobs queue (tasks ++ record { task = t; started = false } ∷ []) in
    if ltb (length tasks) (max jobs 1) then rest else (t ∷ queue, tasks)

abbrev pub fill : ℕ → SearchState → SearchState
fill jobs s =
    let filled = fill_from jobs s.queue s.tasks in record s { queue = filled.0; tasks = filled.1 }

-- The task with an index that has started, or not; and the other tasks.
abbrev pub is_task : ℕ → Bool → Running → Bool
is_task index started r = (r.task.index == index) && (if started then r.started else not r.started)

abbrev pub find_task : ℕ → Bool → List Running → Option Running
find_task index started [] = none
find_task index started (r ∷ rs) =
    if is_task index started r then some r else find_task index started rs

abbrev pub drop_task : ℕ → Bool → List Running → List Running
drop_task index started [] = []
drop_task index started (r ∷ rs) =
    if is_task index started r then rs else r ∷ drop_task index started rs

abbrev pub mark_started : ℕ → List Running → List Running
mark_started index [] = []
mark_started index (r ∷ rs) =
    if is_task index false r then record r { started = true } ∷ rs else r ∷ mark_started index rs

-- A pass stops the loop or continues it; a turn that wakes on a task that does not run, or has
-- not started, describes no pass.
pub data Pass : Type 0 where
  stopped : FinishReason → SearchState → Pass
  continues : SearchState → Pass
  no_such_task : Pass

-- How a loop ends: it stopped, it waits for another turn, or its turns describe no behaviour.
pub data Ended : Type 0 where
  ended : FinishReason → SearchState → Ended
  waiting : SearchState → Ended
  impossible : Ended

module _ (options : SearchOptions) (overall_deadline : ℕ) where
  -- The task up to its search: only a provider has a context, whose collector is shared.
  abbrev pub begin : ℕ → ℕ → Option Running → SearchState → SearchState
  begin index now none s = s
  begin index now (some r) s = record s {
    tasks = mark_started index s.tasks;
    sources_started = suc s.sources_started;
    collectors =
        if r.task.is_provider
        then insert index (for_source now (min (now + options.timeout) overall_deadline))
            s.collectors
        else s.collectors;
  }

  -- A clone of the context publishes into the shared collector.
  abbrev pub publish_to :
      ℕ → ℕ → List SearchResult → Option SearchContext → SearchState → SearchState
  publish_to index now results none s = s
  publish_to index now results (some ctx) s = record s {
    collectors = insert index (publish now ctx results).0 s.collectors;
  }

  unfoldable pub move : SearchState → Move → SearchState
  unfolding lookup insert for_source publish
  move s (start index now) = begin index now (find_task index false s.tasks) s
  move s (publishes index now results) = publish_to index now results (lookup index s.collectors) s

  unfoldable pub move_all : SearchState → List Move → SearchState
  unfolding move
  move_all s [] = s
  move_all s (m ∷ ms) = move_all (move s m) ms

abbrev batch_lists : Batches → List (List SearchResult)
batch_lists [] = []
batch_lists (b ∷ bs) = b.1 ∷ batch_lists bs

abbrev pub rows_in_batches : Env → Batches → List SearchResult
rows_in_batches env batches = merge_search_results env (batch_lists batches)

-- The results of an outcome, none on an error, and with them what the collector has.
abbrev pub outcome_results : SourceOutcome → List SearchResult
outcome_results (batch results) = results
outcome_results (failed e) = []

abbrev pub collected : Env → Option SearchContext → List SearchResult → List SearchResult
collected env none results = results
collected env (some ctx) results = (finish env ctx results).1

module _ (env : Env) (options : SearchOptions) where
  -- A batch as it is kept: only what the query and the filters let through, ranked.
  unfoldable pub prepare : Time → List SearchResult → List SearchResult
  unfolding apply_query_filter filter_results rank_results priorities modes
  prepare now results =
      rank_results env
        (filter_results env (apply_query_filter env results options.query (modes options))
          (filter_options options))
        now (priorities options)

module _ (env : Env) (options : SearchOptions) (has_sender : Bool) where
  -- `match result`: count the source, or report its error.
  abbrev pub record_outcome : Task → SourceOutcome → SearchState → SearchState
  record_outcome task (batch results) s = record s { successful_sources = suc s.successful_sources }
  record_outcome task (failed e) s = record s {
    emission = send has_sender (error (source_error task.source e)) s.emission;
    errors = s.errors ++ (task.index, source_error task.source e) ∷ [];
  }

  abbrev pub add_batch : ℕ → Time → List SearchResult → SearchState → SearchState
  add_batch index now results s = record s {
    batches = s.batches ++ (index, prepare env options now results) ∷ [];
  }

  -- The links of all batches so far, in the order in which the sources finished.
  abbrev pub stream_links : SearchState → SearchState
  stream_links s = record s {
    emission =
        emit_links env has_sender s.emission
          (merge_links env (rows_in_batches env s.batches) none options.clouds);
  }

  abbrev pub report : ℕ → SearchState → SearchState
  report selected s = record s {
    emission =
        send has_sender
          (progress (s.successful_sources + length s.errors) selected (length s.emission.emitted))
          s.emission;
  }

  -- The rest of the pass, for the finished task.
  unfoldable pub accept : ℕ → Time → Task → SourceOutcome → SearchState → SearchState
  unfolding lookup remove finish prepare merge_search_results merge_links emit_links source_error
  accept selected now task outcome s =
      let results = collected env (lookup task.index s.collectors) (outcome_results outcome) in
      let taken = record s { collectors = remove task.index s.collectors } in
      report selected
        (stream_links (add_batch task.index now results (record_outcome task outcome taken)))

  abbrev pub accept_task : ℕ → Time → ℕ → Polled → Bool → Option Running → SearchState → Pass
  accept_task selected now index polled late none s = no_such_task
  accept_task selected now index polled late (some r) s = continues (
      accept selected now r.task (source_result (panic_message r.task) polled late)
        (record s { tasks = drop_task index true s.tasks }))

  abbrev pub after_select : ℕ → Turn → SearchState → Wake → Pass
  after_select selected turn s deadline_passed = stopped deadline s
  after_select selected turn s cancelled = stopped interrupted s
  after_select selected turn s closed = stopped interrupted s
  after_select selected turn s (finished index polled late) =
      if turn.interrupted_after
      then stopped interrupted s
      else if turn.past_deadline
      then stopped deadline s
      else accept_task selected turn.now index polled late (find_task index true s.tasks) s

module _ (env : Env) (options : SearchOptions) (has_sender : Bool) (overall_deadline : ℕ) where
  abbrev pub pass_filled : ℕ → Turn → SearchState → Pass
  pass_filled selected turn s =
      if is_empty s.tasks
      then stopped completed s
      else after_select env options has_sender selected turn
          (move_all options overall_deadline s turn.moves) turn.wake

  unfoldable pub pass : ℕ → Turn → SearchState → Pass
  unfolding move_all accept
  pass selected turn s =
      if turn.interrupted_before
      then stopped interrupted s
      else pass_filled selected turn (fill options.jobs s)

  -- The loop over its turns.
  unfoldable pub run_loop : ℕ → List Turn → SearchState → Ended
  unfolding pass
  run_loop selected [] s = waiting s
  run_loop selected (turn ∷ turns) s = elim (pass selected turn s) [
    | stopped reason t ↦ ended reason t
    | continues t ↦ run_loop selected turns t
    | no_such_task ↦ impossible
  ]
