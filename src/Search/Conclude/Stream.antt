-- ===== src/Search/Conclude/Stream.antt =====
-- The events of a whole search, as its receiver sees them.
use panshou.Prelude.{
  ℕ, ◌+◌, ◌≡◌, refl, sym, ◌∙◌, subst, Bool, true, false, Option, none, some, List, [], ◌∷◌, arith,
  length, is_empty, lookup, nat_eq, remove, Bool-cases, inl, inr,
}
use panshou.Env.{Env}
use panshou.Core.Model.{Time, SearchResult}
use panshou.Core.Merge.{merge_links}
use panshou.Providers.Context.{SearchContext}
use panshou.Search.Query.{SourceOutcome, batch, failed, source_error, Polled, source_result}
use panshou.Search.Options.{SearchOptions, Task, panic_message, queue_of}
use panshou.Search.Emit.{FinishReason, error, progress, summary}
use panshou.Search.Emit.Stream.{
  LinkTable, replay_event, replay, IsStream, replay_next, emit_links-IsStream,
}
use panshou.Search.Loop.{
  Running, SearchState, start, publishes, Move, deadline_passed, cancelled, closed, finished, Wake,
  Turn, initial, fill, find_task, drop_task, begin, publish_to, move, move_all, record_outcome,
  rows_in_batches, accept, report, Pass, stopped, continues, no_such_task, accept_task,
  after_select, pass_filled, pass, Ended, ended, waiting, impossible, run_loop, collected,
  outcome_results, stream_links, add_batch,
}
use panshou.Search.Conclude.{
  Finished, summarize, last_links, all_batches, conclude, conclude_end, run,
}

-- The stream of a pass and of a loop is one that the receiver can follow.
abbrev PassStreams : Pass → Type 0
PassStreams (stopped reason s) = IsStream s.emission
PassStreams (continues s) = IsStream s.emission
PassStreams no_such_task = Unit

abbrev EndStreams : Ended → Type 0
EndStreams (ended reason s) = IsStream s.emission
EndStreams (waiting s) = Unit
EndStreams impossible = Unit

-- What the receiver gets: it can follow every event, and ends with as many links as the summary says.
abbrev pub Follows : Finished → Type 0
Follows f =
    (m : LinkTable) × (replay (some []) f.events ≡ some m) × (length m ≡ f.summarized.total_links)

module _ (env : Env) (options : SearchOptions) where
  record_outcome-IsStream :
      (task : Task) (outcome : SourceOutcome) (s : SearchState)
      → IsStream s.emission
      → IsStream (record_outcome env options true task outcome s).emission
  unfolding replay_event
  record_outcome-IsStream task (batch results) s h = h
  record_outcome-IsStream task (failed e) s h =
      replay_next s.emission (error (source_error task.source e)) h

  report-IsStream :
      (selected : ℕ) (s : SearchState)
      → IsStream s.emission
      → IsStream (report env options true selected s).emission
  unfolding replay_event
  report-IsStream selected s h =
      replay_next s.emission
        (progress (s.successful_sources + length s.errors) selected (length s.emission.emitted)) h

  stream_links-IsStream :
      (s : SearchState) → IsStream s.emission → IsStream (stream_links env options true s).emission
  stream_links-IsStream s h =
      emit_links-IsStream env s.emission
        (merge_links env (rows_in_batches env s.batches) none options.clouds) h

  accept-IsStream :
      (selected : ℕ) (now : Time) (task : Task) (outcome : SourceOutcome) (s : SearchState)
      → IsStream s.emission
      → IsStream (accept env options true selected now task outcome s).emission
  unfolding accept
  accept-IsStream selected now task outcome s h =
      let results = collected env (lookup task.index s.collectors) (outcome_results outcome) in
      let taken = record s { collectors = remove task.index s.collectors } in
      let told = record_outcome env options true task outcome taken in
      let kept = add_batch env options true task.index now results told in
      report-IsStream selected (stream_links env options true kept)
        (stream_links-IsStream kept (record_outcome-IsStream task outcome taken h))

  accept_task_streams :
      (selected : ℕ) (now : Time) (index : ℕ) (polled : Polled) (late : Bool)
      (found : Option Running) (s : SearchState)
      → IsStream s.emission
      → PassStreams (accept_task env options true selected now index polled late found s)
  accept_task_streams selected now index polled late none s h = tt
  accept_task_streams selected now index polled late (some r) s h =
      accept-IsStream selected now r.task (source_result (panic_message r.task) polled late)
        (record s { tasks = drop_task index true s.tasks }) h

  after_select_streams :
      (selected : ℕ) (turn : Turn) (s : SearchState) (wake : Wake)
      → IsStream s.emission
      → PassStreams (after_select env options true selected turn s wake)
  after_select_streams selected turn s deadline_passed h = h
  after_select_streams selected turn s cancelled h = h
  after_select_streams selected turn s closed h = h
  after_select_streams selected turn s (finished index polled late) h =
      elim (Bool-cases turn.interrupted_after) [
        | inl e ↦ rw e h
        | inr e ↦ elim (Bool-cases turn.past_deadline) [
          | inl k ↦ rw (e, k) h
          | inr k ↦
              rw (e, k)
                (accept_task_streams selected turn.now index polled late
                  (find_task index true s.tasks) s h)
        ]
      ]

  module _ (overall_deadline : ℕ) where
    begin-emission :
        (index now : ℕ) (found : Option Running) (s : SearchState)
        → (begin options overall_deadline index now found s).emission ≡ s.emission
    begin-emission index now none s = refl
    begin-emission index now (some r) s = refl

    publish_to-emission :
        (index now : ℕ) (results : List SearchResult) (ctx : Option SearchContext) (s : SearchState)
        → (publish_to options overall_deadline index now results ctx s).emission ≡ s.emission
    publish_to-emission index now results none s = refl
    publish_to-emission index now results (some ctx) s = refl

    move_all-emission :
        (s : SearchState) (ms : List Move)
        → (move_all options overall_deadline s ms).emission ≡ s.emission
    unfolding move move_all
    move_all-emission s [] = refl
    move_all-emission s (start index now ∷ ms) =
        move_all-emission (move options overall_deadline s (start index now)) ms
        ∙ begin-emission index now (find_task index false s.tasks) s
    move_all-emission s (publishes index now results ∷ ms) =
        move_all-emission (move options overall_deadline s (publishes index now results)) ms
        ∙ publish_to-emission index now results (lookup index s.collectors) s

    pass_streams :
        (selected : ℕ) (turn : Turn) (s : SearchState)
        → IsStream s.emission
        → PassStreams (pass env options true overall_deadline selected turn s)
    unfolding pass
    pass_streams selected turn s h = elim (Bool-cases turn.interrupted_before) [
      | inl e ↦ rw e h
      | inr e ↦ rw e (filled (fill options.jobs s) h)
    ]
      where
        filled :
            (t : SearchState)
            → IsStream t.emission
            → PassStreams (pass_filled env options true overall_deadline selected turn t)
        filled t h = elim (Bool-cases (is_empty t.tasks)) [
          | inl e ↦ rw e h
          | inr e ↦ rw e (
              after_select_streams selected turn (move_all options overall_deadline t turn.moves)
                turn.wake (subst IsStream (sym (move_all-emission t turn.moves)) h))
        ]

    next_streams :
        (selected : ℕ) (turns : List Turn) (p : Pass)
        → ((t : SearchState)
            → IsStream t.emission
            → EndStreams (run_loop env options true overall_deadline selected turns t))
        → PassStreams p
        → EndStreams (elim p [
          | stopped reason t ↦ ended reason t
          | continues t ↦ run_loop env options true overall_deadline selected turns t
          | no_such_task ↦ impossible
        ])
    next_streams selected turns (stopped reason t) rest h = h
    next_streams selected turns (continues t) rest h = rest t h
    next_streams selected turns no_such_task rest h = tt

    run_loop_streams :
        (selected : ℕ) (turns : List Turn) (s : SearchState)
        → IsStream s.emission
        → EndStreams (run_loop env options true overall_deadline selected turns s)
    unfolding run_loop
    run_loop_streams selected [] s h = tt
    run_loop_streams selected (turn ∷ turns) s h =
        next_streams selected turns (pass env options true overall_deadline selected turn s)
          (λ t k. run_loop_streams selected turns t k) (pass_streams selected turn s h)

  conclude-Follows :
      (selected : ℕ) (reason : FinishReason) (snapshot_now rank_now : Time) (s : SearchState)
      → IsStream s.emission
      → Follows (conclude env options true selected reason snapshot_now rank_now s)
  unfolding conclude last_links summarize replay_event
  conclude-Follows selected reason snapshot_now rank_now s h =
      let last = last_links env options true snapshot_now s in
      (
        last.emission.emitted,
        replay_next last.emission (summary (summarize selected reason last)) (
            emit_links-IsStream env s.emission
              (merge_links env (rows_in_batches env (all_batches env options snapshot_now s)) none
                options.clouds)
              h),
        refl,
      )

  end-Follows :
      (selected : ℕ) (snapshot_now rank_now : Time) (e : Ended) {f : Finished}
      → EndStreams e
      → conclude_end env options true selected snapshot_now rank_now e ≡ some f
      → Follows f
  end-Follows selected snapshot_now rank_now (ended reason s) {f} k h =
      let same : conclude env options true selected reason snapshot_now rank_now s ≡ f =
        ground arith in
      subst Follows same (conclude-Follows selected reason snapshot_now rank_now s k)
  end-Follows selected snapshot_now rank_now (waiting s) {f} k h = absurd (ground arith)
  end-Follows selected snapshot_now rank_now impossible {f} k h = absurd (ground arith)

  -- The receiver of a search can follow its whole stream: a result comes only for a new id, an
  -- update only for a link that changed; and the number of links that it ends with is the total of
  -- the summary.
  pub run-Follows :
      (started : ℕ) (turns : List Turn) (snapshot_now rank_now : Time) {f : Finished}
      → run env options true started turns snapshot_now rank_now ≡ some f
      → Follows f
  unfolding run replay
  run-Follows started turns snapshot_now rank_now h =
      let selected = length (queue_of options) in
      let until = started + options.all_timeout in
      end-Follows selected snapshot_now rank_now
        (run_loop env options true until selected turns (initial options))
        (run_loop_streams until selected turns (initial options) refl) h
