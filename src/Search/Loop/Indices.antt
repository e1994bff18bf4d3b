-- ===== src/Search/Loop/Indices.antt =====
-- How often the index of a source occurs among the queued, the running and the heard ones, and among
-- the open collectors and the errors.
pub mod Runs
use panshou.Prelude.{
  ℕ, suc, ◌+◌, ◌≤◌, ◌<◌, min, max, ◌≡◌, refl, sym, ◌∙◌, ap, Bool, true, false, not, ◌&&◌, Option,
  none, some, List, [], ◌∷◌, ◌++◌, arith, ltb, leb, ◌==◌, if◌then◌else◌, is_empty, length, lookup,
  insert, remove, nat_eq, Bool-cases, inl, inr,
}
use panshou.Prelude.Counts.{
  one_if, count, count-append, key_of_pair, count-insert, count-remove, count-lookup,
}
use panshou.Text.{Text}
use panshou.Env.{Env}
use panshou.Core.Model.{Time, SearchResult}
use panshou.Providers.Context.{SearchContext, for_source, publish}
use panshou.Search.Query.{SourceOutcome, batch, failed, source_error, Polled, source_result}
use panshou.Search.Options.{
  ProviderMeta, SearchOptions, Task, panic_message, provider_tasks, channel_tasks, queue_of,
}
use panshou.Search.Emit.{FinishReason, completed, deadline, interrupted}
use panshou.Search.Loop.{
  Running, SearchState, Move, start, publishes, Wake, deadline_passed, cancelled, closed, finished,
  Turn, initial, fill_from, fill, is_task, find_task, drop_task, mark_started, begin, publish_to,
  move, move_all, prepare, collected, accept, Pass, stopped, continues, no_such_task, accept_task,
  after_select, pass_filled, pass, Ended, ended, waiting, impossible, run_loop,
}

abbrev pub task_index : Task → ℕ
task_index t = t.index

abbrev pub running_index : Running → ℕ
running_index r = r.task.index

-- How often an index occurs in the parts of a state.
pub record Unique (s : SearchState) (k : ℕ) : Type 0 where
  pub once :
      count task_index k s.queue + count running_index k s.tasks + count key_of_pair k s.batches ≤ 1
  pub open_runs : count key_of_pair k s.collectors ≤ count running_index k s.tasks
  pub errors_heard : count key_of_pair k s.errors ≤ count key_of_pair k s.batches

abbrev pub AllUnique : SearchState → Type 0
AllUnique s = (k : ℕ) → Unique s k

fill_from-count :
    (jobs k : ℕ) (queue : List Task) (tasks : List Running)
    → count task_index k (fill_from jobs queue tasks).0
        + count running_index k (fill_from jobs queue tasks).1
      ≡ count task_index k queue + count running_index k tasks
fill_from-count jobs k [] tasks = refl
fill_from-count jobs k (t ∷ queue) tasks = elim (Bool-cases (ltb (length tasks) (max jobs 1))) [
  | inl e ↦ rw e (
      omega (
        arith,
        fill_from-count jobs k queue (tasks ++ record { task = t; started = false } ∷ []),
        count-append running_index k tasks (record { task = t; started = false } ∷ []),
      ))
  | inr e ↦ rw e
]

fill_from-running :
    (jobs k : ℕ) (queue : List Task) (tasks : List Running)
    → count running_index k tasks ≤ count running_index k (fill_from jobs queue tasks).1
fill_from-running jobs k [] tasks = omega arith
fill_from-running jobs k (t ∷ queue) tasks = elim (Bool-cases (ltb (length tasks) (max jobs 1))) [
  | inl e ↦ rw e (
      omega (
        arith,
        fill_from-running jobs k queue (tasks ++ record { task = t; started = false } ∷ []),
        count-append running_index k tasks (record { task = t; started = false } ∷ []),
      ))
  | inr e ↦ rw e (omega arith)
]

pub fill-AllUnique : (jobs : ℕ) (s : SearchState) → AllUnique s → AllUnique (fill jobs s)
fill-AllUnique jobs s h k =
    let u = h k in
    let once = u.once in
    let runs = u.open_runs in
    record {
      once = omega (arith, fill_from-count jobs k s.queue s.tasks);
      open_runs = omega (arith, fill_from-running jobs k s.queue s.tasks);
      errors_heard = u.errors_heard;
    }

mark_started-count :
    (index k : ℕ) (rs : List Running)
    → count running_index k (mark_started index rs) ≡ count running_index k rs
mark_started-count index k [] = refl
mark_started-count index k (r ∷ rs) = ground (arith, mark_started-count index k rs)

pub find_task-count :
    (index : ℕ) (started : Bool) (k : ℕ) (rs : List Running) {r : Running}
    → find_task index started rs ≡ some r
    → (r.task.index ≡ index)
      × (count running_index k rs
          ≡ one_if index k + count running_index k (drop_task index started rs))
find_task-count index started k [] {r = q} h = absurd (ground arith)
find_task-count index started k (r ∷ rs) {r = q} h = elim (Bool-cases (is_task index started r)) [
  | inl e ↦
      let same : r ≡ q = ground arith in
      let here : r.task.index ≡ index = ground arith in
      (
        ap running_index (sym same) ∙ here,
        rw e (ap (λ n. one_if n k + count running_index k rs) here),
      )
  | inr e ↦
      let rest = find_task-count index started k rs {r = q} (ground arith) in
      (rest.0, rw e (omega (arith, rest.1)))
]

module _ (options : SearchOptions) (overall_deadline : ℕ) where
  begin-AllUnique :
      (index now : ℕ) (found : Option Running) (s : SearchState)
      → find_task index false s.tasks ≡ found
      → AllUnique s
      → AllUnique (begin options overall_deadline index now found s)
  unfolding for_source
  begin-AllUnique index now none s e h = h
  begin-AllUnique index now (some r) s e h = λ k.
      let once = (h k).once in
      let runs = (h k).open_runs in
      let same = mark_started-count index k s.tasks in
      let here = (find_task-count index false k s.tasks e).1 in
      record {
        once = omega (arith, once, same);
        open_runs = elim (Bool-cases r.task.is_provider) [
          | inl p ↦ rw p (
              omega (
                arith,
                runs,
                same,
                here,
                count-insert index k (for_source now (min (now + options.timeout) overall_deadline))
                    s.collectors,
              ))
          | inr p ↦ rw p (omega (arith, runs, same))
        ];
        errors_heard = (h k).errors_heard;
      }

  publish_to-AllUnique :
      (index now : ℕ) (results : List SearchResult) (found : Option SearchContext) (s : SearchState)
      → lookup index s.collectors ≡ found
      → AllUnique s
      → AllUnique (publish_to options overall_deadline index now results found s)
  unfolding publish
  publish_to-AllUnique index now results none s e h = h
  publish_to-AllUnique index now results (some ctx) s e h = λ k.
      let runs = (h k).open_runs in
      record {
        once = (h k).once;
        open_runs = omega (
          arith,
          runs,
          count-lookup index k s.collectors e,
          count-insert index k (publish now ctx results).0 s.collectors,
        );
        errors_heard = (h k).errors_heard;
      }

  move-AllUnique :
      (s : SearchState) (m : Move) → AllUnique s → AllUnique (move options overall_deadline s m)
  unfolding move
  move-AllUnique s (start index now) h =
      begin-AllUnique index now (find_task index false s.tasks) s refl h
  move-AllUnique s (publishes index now results) h =
      publish_to-AllUnique index now results (lookup index s.collectors) s refl h

  pub move_all-AllUnique :
      (s : SearchState) (ms : List Move)
      → AllUnique s
      → AllUnique (move_all options overall_deadline s ms)
  unfolding move_all
  move_all-AllUnique s [] h = h
  move_all-AllUnique s (m ∷ ms) h =
      move_all-AllUnique (move options overall_deadline s m) ms (move-AllUnique s m h)

pub count-append_pair {ℓ} :
    {V : Type ℓ} (j k : ℕ) (v : V) (m : List (ℕ × V))
    → count key_of_pair k (m ++ (j, v) ∷ []) ≡ count key_of_pair k m + one_if j k
count-append_pair j k v m = omega (arith, count-append key_of_pair k m ((j, v) ∷ []))
