-- ===== src/Tests/Retrying.antt =====
-- Runs of the retries, with whole seconds in place of `f64`.
use panshou.Prelude.{
  ℕ, zero, suc, ◌≡◌, refl, ◌<◌, ◌*◌, ◌^◌, min, ltb, true, some, [], ◌∷◌, ◌++◌, arith,
}
use panshou.Text.{Text, text}
use panshou.Http.Retry.{
  Doubles, RetryPolicy, linear, Attempt, ok, retry, exhausted, error, wait_after, retry_with,
}
use panshou.Http.Retry.Bounded.{IsProper, retry_with-IsProper}
use panshou.Http.Retry.Trace.{called, recorder, retried_rounds, final, is_retry, retry_with-trace}

abbrev doubles : Doubles
doubles = record {
  Double = ℕ;
  as_secs = λ n. n;
  of_usize = λ n. n;
  one = 1;
  gt = λ a b. ltb b a;
  mul = ◌*◌;
  powf = λ a b. a ^ b;
  min_of = min;
  try_from_secs = some;
}

abbrev policy : RetryPolicy doubles
policy = linear doubles 3 1000

-- The first attempt fails, the second returns.
abbrev script : ℕ → Attempt ℕ Text
script zero = retry (text "reset")
script (suc n) = ok 7

abbrev always : ℕ → Attempt ℕ Text
always n = retry (text "reset")

gives_up :
    (retry_with doubles policy (λ n. 1) (recorder always) []).1 ≡ error (exhausted 3 (text "reset"))
unfolding retry_with
gives_up = refl

retry_with-IsProper_example : IsProper 3 (retry_with doubles policy (λ n. 1) (recorder always) []).1
retry_with-IsProper_example = retry_with-IsProper doubles policy (λ n. 1) (recorder always) []

script_retries : (j : ℕ) → j < 1 → is_retry (script j) ≡ true
script_retries zero h = refl
script_retries (suc j) h = absurd (omega (arith, h))

retry_with-trace_example :
    retry_with doubles policy (λ n. 1) (recorder script) []
    ≡ (retried_rounds (λ a. wait_after doubles policy 1 a) 0 1 ++ called 1 ∷ [], final 3 (script 1))
retry_with-trace_example =
    retry_with-trace doubles policy (λ n. 1) script 1 (omega arith) script_retries
      (λ e. absurd (ground arith))
