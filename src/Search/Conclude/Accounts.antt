-- ===== src/Search/Conclude/Accounts.antt =====
-- The summary of a search accounts for every source that was selected.
use panshou.Prelude.{
  ℕ, ◌+◌, ◌-◌, ◌≡◌, refl, subst, Bool, some, List, arith, length, if◌then◌else◌, ◌==◌,
}
use panshou.Env.{Env}
use panshou.Core.Model.{Time}
use panshou.Search.Options.{SearchOptions, queue_of}
use panshou.Search.Emit.{FinishReason, completed, deadline, interrupted, SearchSummary}
use panshou.Search.Loop.{SearchState, Turn, initial, Ended, ended, waiting, impossible, run_loop}
use panshou.Search.Loop.Counts.{WellFormed, work, count_started_le}
use panshou.Search.Loop.Passes.{AllDone, EndKeeps, run_loop_keeps, initial-WellFormed}
use panshou.Search.Conclude.{
  exit_code, Finished, summarize, last_links, conclude, conclude_end, run,
}

-- What the reason says: after a completion no source was cancelled or left out, and the exit code
-- tells whether one succeeded; otherwise the exit code is that of a timeout or an interrupt.
abbrev Told : FinishReason → SearchSummary → Type 0
Told completed s =
    (s.sources_cancelled ≡ 0)
    × (s.sources_not_started ≡ 0)
    × (exit_code s ≡ (if s.sources_completed == 0 then 3 else 0))
Told deadline s = exit_code s ≡ 124
Told interrupted s = exit_code s ≡ 130

-- The four counts make up the selected sources, and the reason fits them.
abbrev pub Accounts : SearchSummary → Type 0
Accounts s =
    (s.sources_completed + s.sources_failed + s.sources_cancelled + s.sources_not_started
      ≡ s.sources_selected)
    × Told s.finish_reason s

summarize-sum :
    (jobs selected : ℕ) (s : SearchState)
    → WellFormed jobs selected s
    → s.successful_sources
        + length s.errors
        + (s.sources_started - s.successful_sources - length s.errors)
        + (selected - s.sources_started)
      ≡ selected
summarize-sum jobs selected s h = omega (arith, h.0, h.1, count_started_le s.tasks)

summarize-none_left :
    (jobs selected : ℕ) (s : SearchState)
    → WellFormed jobs selected s
    → work s ≡ 0
    → (s.sources_started - s.successful_sources - length s.errors ≡ 0)
      × (selected - s.sources_started ≡ 0)
summarize-none_left jobs selected s h done = (
  omega (arith, h.0, h.1, count_started_le s.tasks, done),
  omega (arith, h.0, h.1, count_started_le s.tasks, done),
)

module _ (env : Env) (options : SearchOptions) (has_sender : Bool) where
  conclude-Accounts :
      (jobs selected : ℕ) (reason : FinishReason) (snapshot_now rank_now : Time) (s : SearchState)
      → WellFormed jobs selected s
      → AllDone reason s
      → Accounts
          (conclude env options has_sender selected reason snapshot_now rank_now s).summarized
  unfolding conclude last_links summarize exit_code
  conclude-Accounts jobs selected completed snapshot_now rank_now s h done =
      let left = summarize-none_left jobs selected s h done in
      (summarize-sum jobs selected s h, (left.0, left.1, refl))
  conclude-Accounts jobs selected deadline snapshot_now rank_now s h done =
      (summarize-sum jobs selected s h, refl)
  conclude-Accounts jobs selected interrupted snapshot_now rank_now s h done =
      (summarize-sum jobs selected s h, refl)

  end-Accounts :
      (selected : ℕ) (snapshot_now rank_now : Time) (e : Ended) {f : Finished}
      → EndKeeps options.jobs selected e
      → conclude_end env options has_sender selected snapshot_now rank_now e ≡ some f
      → Accounts f.summarized
  end-Accounts selected snapshot_now rank_now (ended reason s) {f} k h =
      let same : conclude env options has_sender selected reason snapshot_now rank_now s ≡ f =
        ground arith in
      subst (λ x. Accounts x.summarized) same
        (conclude-Accounts options.jobs selected reason snapshot_now rank_now s k.0 k.1)
  end-Accounts selected snapshot_now rank_now (waiting s) {f} k h = absurd (ground arith)
  end-Accounts selected snapshot_now rank_now impossible {f} k h = absurd (ground arith)

  -- However a search goes, its summary accounts for every selected source: the numbers of completed,
  -- failed, cancelled and not started ones add up to it. After a completion none is cancelled or not
  -- started, and the exit code is 3 if none succeeded, else 0; after a deadline it is 124 and after an
  -- interrupt 130.
  pub run-Accounts :
      (started : ℕ) (turns : List Turn) (snapshot_now rank_now : Time) {f : Finished}
      → run env options has_sender started turns snapshot_now rank_now ≡ some f
      → Accounts f.summarized
  unfolding run
  run-Accounts started turns snapshot_now rank_now h =
      let selected = length (queue_of options) in
      let until = started + options.all_timeout in
      end-Accounts selected snapshot_now rank_now
        (run_loop env options has_sender until selected turns (initial options))
        (run_loop_keeps env options has_sender until selected turns (initial options)
          (initial-WellFormed options))
        h
