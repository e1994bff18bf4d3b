-- ===== src/Search/Loop/Indices/Runs.antt =====
-- The indices of the sources over one pass of the loop and over the whole loop.
use panshou.Prelude.{
  ℕ, suc, ◌+◌, ◌≤◌, ◌<◌, ◌≡◌, refl, Bool, true, Option, none, some, List, [], ◌∷◌, ◌++◌, arith,
  ◌==◌, is_empty, length, lookup, remove, nat_eq, Bool-cases, inl, inr,
}
use panshou.Prelude.Counts.{count, count-append, key_of_pair, count-remove}
use panshou.Text.{Text}
use panshou.Env.{Env}
use panshou.Core.Model.{Time, SearchResult}
use panshou.Search.Query.{SourceOutcome, batch, failed, source_error, Polled, source_result}
use panshou.Search.Options.{
  ProviderMeta, SearchOptions, panic_message, provider_tasks, channel_tasks, queue_of,
}
use panshou.Search.Loop.{
  Running, SearchState, Wake, deadline_passed, cancelled, closed, finished, Turn, initial, fill,
  find_task, drop_task, move_all, prepare, collected, accept, Pass, stopped, continues,
  no_such_task, accept_task, after_select, pass_filled, pass, Ended, ended, waiting, impossible,
  run_loop,
}
use panshou.Search.Loop.Indices.{
  task_index, running_index, Unique, AllUnique, fill-AllUnique, find_task-count, count-append_pair,
  move_all-AllUnique,
}

-- A started task leaves the running ones for the heard ones, and its collector with it.
heard_once :
    (index k : ℕ) (s : SearchState) {r : Running} (rows : List SearchResult)
    → find_task index true s.tasks ≡ some r
    → Unique s k
    → (count task_index k s.queue
          + count running_index k (drop_task index true s.tasks)
          + count key_of_pair k (s.batches ++ (r.task.index, rows) ∷ [])
        ≤ 1)
      × (count key_of_pair k (remove r.task.index s.collectors)
          ≤ count running_index k (drop_task index true s.tasks))
heard_once index k s {r} rows e u =
    let once = u.once in
    let runs = u.open_runs in
    let found = find_task-count index true k s.tasks e in
    let more = count-append_pair r.task.index k rows s.batches in
    let gone = count-remove r.task.index k s.collectors in
    (
      rw (more, found.0) (omega (arith, once, found.1)),
      rw (gone, found.0)
          (elim (Bool-cases (index == k)) [
            | inl same ↦ rw same (omega arith)
            | inr other ↦ ground (arith, runs, found.1)
          ]),
    )

module _ (env : Env) (options : SearchOptions) (has_sender : Bool) where
  accept-AllUnique :
      (selected : ℕ) (now : Time) (index : ℕ) (r : Running) (outcome : SourceOutcome)
      (s : SearchState)
      → find_task index true s.tasks ≡ some r
      → AllUnique s
      → AllUnique (
          accept env options has_sender selected now r.task outcome
            (record s { tasks = drop_task index true s.tasks }))
  unfolding accept
  accept-AllUnique selected now index r (batch results) s e h = λ k.
      let rows =
        prepare env options now (collected env (lookup r.task.index s.collectors) results) in
      let counts = heard_once index k s rows e (h k) in
      let heard = (h k).errors_heard in
      record {
        once = counts.0;
        open_runs = counts.1;
        errors_heard = omega (arith, heard, count-append_pair r.task.index k rows s.batches);
      }
  accept-AllUnique selected now index r (failed error) s e h = λ k.
      let rows = prepare env options now (collected env (lookup r.task.index s.collectors) []) in
      let counts = heard_once index k s rows e (h k) in
      let heard = (h k).errors_heard in
      record {
        once = counts.0;
        open_runs = counts.1;
        errors_heard = omega (
          arith,
          heard,
          count-append_pair r.task.index k rows s.batches,
          count-append_pair r.task.index k (source_error r.task.source error) s.errors,
        );
      }

-- How a pass and how the loop end.
abbrev PassUnique : Pass → Type 0
PassUnique (stopped reason s) = AllUnique s
PassUnique (continues s) = AllUnique s
PassUnique no_such_task = Unit

abbrev pub EndUnique : Ended → Type 0
EndUnique (ended reason s) = AllUnique s
EndUnique (waiting s) = Unit
EndUnique impossible = Unit

module _ (env : Env) (options : SearchOptions) (has_sender : Bool) where
  accept_task-Unique :
      (selected : ℕ) (now : Time) (index : ℕ) (polled : Polled) (late : Bool)
      (found : Option Running) (s : SearchState)
      → find_task index true s.tasks ≡ found
      → AllUnique s
      → PassUnique (accept_task env options has_sender selected now index polled late found s)
  accept_task-Unique selected now index polled late none s e h = tt
  accept_task-Unique selected now index polled late (some r) s e h =
      accept-AllUnique env options has_sender selected now index r
        (source_result (panic_message r.task) polled late) s e h

  after_select-Unique :
      (selected : ℕ) (turn : Turn) (s : SearchState) (wake : Wake)
      → AllUnique s
      → PassUnique (after_select env options has_sender selected turn s wake)
  after_select-Unique selected turn s deadline_passed h = h
  after_select-Unique selected turn s cancelled h = h
  after_select-Unique selected turn s closed h = h
  after_select-Unique selected turn s (finished index polled late) h =
      elim (Bool-cases turn.interrupted_after) [
        | inl e ↦ rw e h
        | inr e ↦ elim (Bool-cases turn.past_deadline) [
          | inl k ↦ rw (e, k) h
          | inr k ↦
              rw (e, k)
                (accept_task-Unique selected turn.now index polled late
                  (find_task index true s.tasks) s refl h)
        ]
      ]

  module _ (overall_deadline : ℕ) where
    pass_filled-Unique :
        (selected : ℕ) (turn : Turn) (s : SearchState)
        → AllUnique s
        → PassUnique (pass_filled env options has_sender overall_deadline selected turn s)
    pass_filled-Unique selected turn s h = elim (Bool-cases (is_empty s.tasks)) [
      | inl e ↦ rw e h
      | inr e ↦ rw e (
          after_select-Unique selected turn (move_all options overall_deadline s turn.moves)
            turn.wake (move_all-AllUnique options overall_deadline s turn.moves h))
    ]

    pass-Unique :
        (selected : ℕ) (turn : Turn) (s : SearchState)
        → AllUnique s
        → PassUnique (pass env options has_sender overall_deadline selected turn s)
    unfolding pass
    pass-Unique selected turn s h = elim (Bool-cases turn.interrupted_before) [
      | inl e ↦ rw e h
      | inr e ↦
          rw e (
            pass_filled-Unique selected turn (fill options.jobs s)
              (fill-AllUnique options.jobs s h))
    ]

    next-Unique :
        (selected : ℕ) (turns : List Turn) (p : Pass)
        → ((t : SearchState)
            → AllUnique t
            → EndUnique (run_loop env options has_sender overall_deadline selected turns t))
        → PassUnique p
        → EndUnique (elim p [
          | stopped reason t ↦ ended reason t
          | continues t ↦ run_loop env options has_sender overall_deadline selected turns t
          | no_such_task ↦ impossible
        ])
    next-Unique selected turns (stopped reason t) rest h = h
    next-Unique selected turns (continues t) rest h = rest t h
    next-Unique selected turns no_such_task rest h = tt

    pub run_loop-Unique :
        (selected : ℕ) (turns : List Turn) (s : SearchState)
        → AllUnique s
        → EndUnique (run_loop env options has_sender overall_deadline selected turns s)
    unfolding run_loop
    run_loop-Unique selected [] s h = tt
    run_loop-Unique selected (turn ∷ turns) s h =
        next-Unique selected turns (pass env options has_sender overall_deadline selected turn s)
          (λ t k. run_loop-Unique selected turns t k) (pass-Unique selected turn s h)

-- The queue numbers its tasks one after another.
provider_tasks-count :
    (k index : ℕ) (ps : List ProviderMeta)
    → (count task_index k (provider_tasks index ps) ≤ 1)
      × (k < index → count task_index k (provider_tasks index ps) ≡ 0)
      × (index + length ps ≤ k → count task_index k (provider_tasks index ps) ≡ 0)
provider_tasks-count k index [] = (omega arith, (λ h. refl), λ h. refl)
provider_tasks-count k index (p ∷ ps) =
    let rest = provider_tasks-count k (suc index) ps in
    let none_below : k < suc index → count task_index k (provider_tasks (suc index) ps) ≡ 0 =
      rest.1 in
    let none_above : suc index + length ps ≤ k
        → count task_index k (provider_tasks (suc index) ps) ≡ 0 =
      rest.2 in
    (ground (arith, rest.0), (λ h. ground (arith, none_below)), λ h. ground (arith, none_above))

channel_tasks-count :
    (k index : ℕ) (cs : List Text)
    → (count task_index k (channel_tasks index cs) ≤ 1)
      × (k < index → count task_index k (channel_tasks index cs) ≡ 0)
channel_tasks-count k index [] = (omega arith, λ h. refl)
channel_tasks-count k index (c ∷ cs) =
    let rest = channel_tasks-count k (suc index) cs in
    let none_below : k < suc index → count task_index k (channel_tasks (suc index) cs) ≡ 0 =
      rest.1 in
    (ground (arith, rest.0), λ h. ground (arith, none_below))

pub initial-AllUnique : (options : SearchOptions) → AllUnique (initial options)
unfolding queue_of
initial-AllUnique options k =
    let n = length options.providers in
    let ps = provider_tasks-count k 0 options.providers in
    let cs = channel_tasks-count k n options.channels in
    let above = ps.2 in
    let below = cs.1 in
    record {
      once = ground (
        arith,
        ps.0,
        cs.0,
        above,
        below,
        count-append task_index k (provider_tasks 0 options.providers)
            (channel_tasks n options.channels),
      );
      open_runs = omega arith;
      errors_heard = omega arith;
    }
