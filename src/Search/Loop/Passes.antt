-- ===== src/Search/Loop/Passes.antt =====
-- One pass of the loop and the whole loop: what they keep, and that the loop ends.
use panshou.Prelude.{
  ℕ, suc, ◌<◌, ◌≡◌, refl, subst, Bool, true, false, Option, none, some, List, [], ◌∷◌, arith,
  is_empty, length, length-append_one, nat_eq, Bool-cases, inl, inr,
}
use panshou.Env.{Env}
use panshou.Core.Model.{Time}
use panshou.Search.Query.{SourceOutcome, batch, failed, source_error, Polled, source_result}
use panshou.Search.Options.{SearchOptions, panic_message, queue_of}
use panshou.Search.Emit.{FinishReason, completed, deadline, interrupted}
use panshou.Search.Loop.{
  Running, SearchState, deadline_passed, cancelled, closed, Wake, finished, Turn, initial, fill,
  find_task, drop_task, move_all, accept, Pass, stopped, continues, no_such_task, accept_task,
  after_select, pass_filled, pass, Ended, ended, waiting, impossible, run_loop,
}
use panshou.Search.Loop.Counts.{
  WellFormed, work, fill_from-Filled, fill-WellFormed, drop_task_lem, move_all-Keeps,
}

-- A loop that completes has no work left.
abbrev pub AllDone : FinishReason → SearchState → Type 0
AllDone completed s = work s ≡ 0
AllDone deadline s = Unit
AllDone interrupted s = Unit

-- After a pass with this much work before it: the counters agree, and a pass that goes on has
-- finished one source.
abbrev pub PassKeeps : (jobs selected before : ℕ) → Pass → Type 0
PassKeeps jobs selected before (stopped reason s) = WellFormed jobs selected s × AllDone reason s
PassKeeps jobs selected before (continues s) = WellFormed jobs selected s × (suc (work s) ≡ before)
PassKeeps jobs selected before no_such_task = Unit

-- How the loop ends: stopped with the counters in agreement.
abbrev pub EndKeeps : (jobs selected : ℕ) → Ended → Type 0
EndKeeps jobs selected (ended reason s) = WellFormed jobs selected s × AllDone reason s
EndKeeps jobs selected (waiting s) = Unit
EndKeeps jobs selected impossible = Unit

abbrev pub is_waiting : Ended → Bool
is_waiting (ended reason s) = false
is_waiting (waiting s) = true
is_waiting impossible = false

empty_length : (rs : List Running) → is_empty rs ≡ true → length rs ≡ 0
empty_length [] e = refl
empty_length (r ∷ rs) e = absurd (ground arith)

module _ (env : Env) (options : SearchOptions) (has_sender : Bool) where
  accept-WellFormed :
      (selected : ℕ) (now : Time) (index : ℕ) (r : Running) (outcome : SourceOutcome)
      (s : SearchState)
      → find_task index true s.tasks ≡ some r
      → WellFormed options.jobs selected s
      → PassKeeps options.jobs selected (work s) (
          continues (
            accept env options has_sender selected now r.task outcome
              (record s { tasks = drop_task index true s.tasks })))
  unfolding accept
  accept-WellFormed selected now index r (batch results) s e h =
      let d = drop_task_lem index s.tasks e in
      (
        (omega (arith, h.0, d.1), omega (arith, h.1, d.0), omega (arith, h.2, d.0)),
        omega (arith, d.0),
      )
  accept-WellFormed selected now index r (failed error) s e h =
      let d = drop_task_lem index s.tasks e in
      let more = length-append_one s.errors (r.task.index, source_error r.task.source error) in
      (
        (omega (arith, h.0, d.1, more), omega (arith, h.1, d.0, more), omega (arith, h.2, d.0)),
        omega (arith, d.0),
      )

  accept_task_keeps :
      (selected : ℕ) (now : Time) (index : ℕ) (polled : Polled) (late : Bool)
      (found : Option Running) (s : SearchState)
      → find_task index true s.tasks ≡ found
      → WellFormed options.jobs selected s
      → PassKeeps options.jobs selected
          (work s)
          (accept_task env options has_sender selected now index polled late found s)
  accept_task_keeps selected now index polled late none s e h = tt
  accept_task_keeps selected now index polled late (some r) s e h =
      accept-WellFormed selected now index r (source_result (panic_message r.task) polled late) s e
        h

  after_select_keeps :
      (selected : ℕ) (turn : Turn) (s : SearchState) (wake : Wake)
      → WellFormed options.jobs selected s
      → PassKeeps options.jobs selected
          (work s)
          (after_select env options has_sender selected turn s wake)
  after_select_keeps selected turn s deadline_passed h = (h, tt)
  after_select_keeps selected turn s cancelled h = (h, tt)
  after_select_keeps selected turn s closed h = (h, tt)
  after_select_keeps selected turn s (finished index polled late) h =
      elim (Bool-cases turn.interrupted_after) [
        | inl e ↦ rw e (h, tt)
        | inr e ↦ elim (Bool-cases turn.past_deadline) [
          | inl k ↦ rw (e, k) (h, tt)
          | inr k ↦
              rw (e, k)
                (accept_task_keeps selected turn.now index polled late
                  (find_task index true s.tasks) s refl h)
        ]
      ]

  module _ (overall_deadline : ℕ) where
    pass_filled_keeps :
        (selected : ℕ) (turn : Turn) (s : SearchState)
        → WellFormed options.jobs selected s
        → (is_empty s.tasks ≡ true → length s.queue ≡ 0)
        → PassKeeps options.jobs selected
            (work s)
            (pass_filled env options has_sender overall_deadline selected turn s)
    pass_filled_keeps selected turn s h none_left = elim (Bool-cases (is_empty s.tasks)) [
      | inl e ↦ rw e (h, omega (arith, none_left e, empty_length s.tasks e))
      | inr e ↦
          let moved = move_all-Keeps options overall_deadline selected s turn.moves h in
          rw e (
            subst
              (λ n. PassKeeps options.jobs selected n (
                after_select env options has_sender selected turn
                  (move_all options overall_deadline s turn.moves) turn.wake))
              moved.1
              (after_select_keeps selected turn (move_all options overall_deadline s turn.moves)
                turn.wake moved.0))
    ]

    -- From a state whose counters agree, a pass of the loop keeps them in agreement and the number of
    -- running sources within the limit; if it goes on, one source less is queued or running; if it stops because all is
    -- done, none is.
    pub pass_keeps :
        (selected : ℕ) (turn : Turn) (s : SearchState)
        → WellFormed options.jobs selected s
        → PassKeeps options.jobs selected
            (work s)
            (pass env options has_sender overall_deadline selected turn s)
    unfolding pass
    pass_keeps selected turn s h = elim (Bool-cases turn.interrupted_before) [
      | inl e ↦ rw e (h, tt)
      | inr e ↦
          let f = fill_from-Filled options.jobs s.queue s.tasks h.2 in
          rw e (
            subst
              (λ n. PassKeeps options.jobs selected n (
                pass_filled env options has_sender overall_deadline selected turn
                  (fill options.jobs s)))
              f.0
              (pass_filled_keeps selected turn (fill options.jobs s)
                (fill-WellFormed options.jobs selected s h) f.3))
    ]

    next_keeps :
        (selected : ℕ) (turns : List Turn) (p : Pass) (before : ℕ)
        → ((t : SearchState)
            → WellFormed options.jobs selected t
            → EndKeeps options.jobs selected
                (run_loop env options has_sender overall_deadline selected turns t))
        → PassKeeps options.jobs selected before p
        → EndKeeps options.jobs selected (elim p [
          | stopped reason t ↦ ended reason t
          | continues t ↦ run_loop env options has_sender overall_deadline selected turns t
          | no_such_task ↦ impossible
        ])
    next_keeps selected turns (stopped reason t) before rest h = h
    next_keeps selected turns (continues t) before rest h = rest t h.0
    next_keeps selected turns no_such_task before rest h = tt

    pub run_loop_keeps :
        (selected : ℕ) (turns : List Turn) (s : SearchState)
        → WellFormed options.jobs selected s
        → EndKeeps options.jobs selected
            (run_loop env options has_sender overall_deadline selected turns s)
    unfolding run_loop
    run_loop_keeps selected [] s h = tt
    run_loop_keeps selected (turn ∷ turns) s h =
        next_keeps selected turns (pass env options has_sender overall_deadline selected turn s)
          (work s) (λ t k. run_loop_keeps selected turns t k) (pass_keeps selected turn s h)

    next_ends :
        (selected : ℕ) (turns : List Turn) (p : Pass) (before : ℕ)
        → ((t : SearchState)
            → WellFormed options.jobs selected t
            → work t < length turns
            → is_waiting (run_loop env options has_sender overall_deadline selected turns t)
              ≡ false)
        → PassKeeps options.jobs selected before p
        → before < suc (length turns)
        → is_waiting (elim p [
          | stopped reason t ↦ ended reason t
          | continues t ↦ run_loop env options has_sender overall_deadline selected turns t
          | no_such_task ↦ impossible
        ])
          ≡ false
    next_ends selected turns (stopped reason t) before rest h enough = refl
    next_ends selected turns (continues t) before rest h enough = rest t h.0 (omega (arith, h.1))
    next_ends selected turns no_such_task before rest h enough = refl

    -- From a state whose counters agree, and given more turns than sources are queued or running, the
    -- loop does not wait for another turn: it has stopped, unless a turn wakes on a task that does not
    -- run.
    pub run_loop_ends :
        (selected : ℕ) (turns : List Turn) (s : SearchState)
        → WellFormed options.jobs selected s
        → work s < length turns
        → is_waiting (run_loop env options has_sender overall_deadline selected turns s) ≡ false
    unfolding run_loop
    run_loop_ends selected [] s h enough = absurd (omega (arith, enough))
    run_loop_ends selected (turn ∷ turns) s h enough =
        next_ends selected turns (pass env options has_sender overall_deadline selected turn s)
          (work s) (λ t k more. run_loop_ends selected turns t k more)
          (pass_keeps selected turn s h) enough

-- Before the loop every source is queued.
pub initial-WellFormed :
    (options : SearchOptions)
    → WellFormed options.jobs (length (queue_of options)) (initial options)
initial-WellFormed options = (refl, omega arith, omega arith)
