-- ===== src/Tests/Sources.antt =====
-- Runs of the contexts of sources and of `collect_partial`.
use mathlib.Core.List.{Permᴰ}
use panshou.Prelude.{◌≡◌, refl, false, some, List, [], ◌∷◌, length, arith}
use panshou.Text.{text_eq}
use panshou.Core.Error.{rate_limited}
use panshou.Providers.Context.{SearchContext, for_source, publish, finish}
use panshou.Providers.Context.Sealing.{publishes, finishes, after, finish_seals}
use panshou.Providers.Collect.{Completion, ok_row, failed, err, collect_partial}
use panshou.Providers.Collect.Outcome.{
  first_failure, rows_in, verdict, in_index_order, collect_partial-verdict,
}
use panshou.Tests.{sample_env, first_row, second_row}

-- A source that may run from 5 to 100.
abbrev context : SearchContext
context = record {
  timeout = 95;
  deadline = some 100;
  collector = record { sealed = false; results = [] };
}

starts : for_source 5 100 ≡ context
unfolding for_source
starts = refl

-- A publication in time, one at the deadline, and the last batch.
published :
    length
      (finish sample_env
        (publish 100 (publish 50 context (first_row ∷ [])).0 (second_row ∷ [])).0
        []).1
    ≡ 1
unfolding publish finish
published = refl

finish_seals_example :
    let sealed = (finish sample_env context (first_row ∷ [])).0 in
    let calls = publishes 50 (second_row ∷ []) ∷ finishes (second_row ∷ []) ∷ [] in
    (after sample_env sealed calls ≡ sealed)
    × ((publish 60 (after sample_env sealed calls) (second_row ∷ [])).1 ≡ false)
    × ((finish sample_env (after sample_env sealed calls) (second_row ∷ [])).1
        ≡ (finish sample_env context (first_row ∷ [])).1)
finish_seals_example =
    finish_seals sample_env context (first_row ∷ []) (second_row ∷ [])
      (publishes 50 (second_row ∷ []) ∷ finishes (second_row ∷ []) ∷ []) 60

-- The job with index 1 finishes first.
abbrev jobs : List Completion
jobs =
    record { index = 0; at = 30; result = ok_row first_row }
    ∷ record { index = 1; at = 20; result = failed rate_limited }
    ∷ []

abbrev finished : List Completion
finished =
    record { index = 1; at = 20; result = failed rate_limited }
    ∷ record { index = 0; at = 30; result = ok_row first_row }
    ∷ []

first_error : (collect_partial context finished).1 ≡ err rate_limited
unfolding collect_partial
first_error = refl

collect_partial-verdict_example :
    (collect_partial context finished).1
    ≡ verdict (rows_in (in_index_order jobs)) (first_failure (in_index_order jobs))
collect_partial-verdict_example =
    collect_partial-verdict context finished jobs (Permᴰ.swap refl refl)
      (((λ e. absurd (omega (arith, e))), tt), (tt, tt))
