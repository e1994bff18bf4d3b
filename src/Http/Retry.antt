-- ===== src/Http/Retry.antt =====
-- src/http/retry.rs: retries. The operation, the observer and the wait are effects of the caller:
-- functions on a state that the loop passes along. A `Duration` is a number of nanoseconds.
pub mod Bounded
pub mod Trace
use panshou.Prelude.{
  ℕ, zero, suc, ◌+◌, ◌-◌, ◌*◌, ◌^◌, min, max, Bool, true, false, Option, none, some, if◌then◌else◌,
  ◌==◌, filter_option, not,
}

-- `f64`, and the conversions of `Duration`.
pub record Doubles : Type 1 where
  pub Double : Type 0
  pub as_secs : ℕ → Double
  pub of_usize : ℕ → Double
  pub one : Double
  pub gt : Double → Double → Bool
  pub mul : Double → Double → Double
  pub powf : Double → Double → Double
  pub min_of : Double → Double → Double
  -- `none` is an error: negative, not finite, or too large.
  pub try_from_secs : Double → Option ℕ

abbrev duration_max : ℕ
duration_max = (2 ^ 64 - 1) * 1000000000 + 999999999

abbrev u32_max : ℕ
u32_max = 2 ^ 32 - 1

abbrev default_delay : ℕ
default_delay = 500000000

module _ (d : Doubles) where
  pub record RetryPolicy : Type 0 where
    pub attempts : ℕ
    pub base_delay : ℕ
    pub multiplier : d.Double
    pub max_delay : Option ℕ
    pub jitter : Bool
    pub delay : Option (ℕ → ℕ)

  abbrev default_policy : RetryPolicy
  default_policy = record {
    attempts = 1;
    base_delay = default_delay;
    multiplier = d.one;
    max_delay = none;
    jitter = false;
    delay = none;
  }

  abbrev fixed : ℕ → ℕ → RetryPolicy
  fixed attempts delay = record default_policy { attempts = attempts; base_delay = delay }

  -- `step.saturating_mul((attempt + 1).min(u32::MAX))`.
  abbrev linear_delay : ℕ → ℕ → ℕ
  linear_delay step attempt = min (step * min (attempt + 1) u32_max) duration_max

  abbrev pub linear : ℕ → ℕ → RetryPolicy
  linear attempts step = record default_policy {
    attempts = attempts;
    delay = some (linear_delay step);
  }

  abbrev exponential : ℕ → ℕ → d.Double → RetryPolicy
  exponential attempts base multiplier = record default_policy {
    attempts = attempts;
    base_delay = base;
    multiplier = multiplier;
  }

  abbrev scaled : RetryPolicy → ℕ → d.Double → d.Double
  scaled p attempt seconds =
      if d.gt p.multiplier d.one
      then d.mul seconds (d.powf p.multiplier (d.of_usize attempt))
      else seconds

  abbrev capped : RetryPolicy → d.Double → d.Double
  capped p seconds = elim (filter_option (λ cap. not (cap == 0)) p.max_delay) [
    | none ↦ seconds
    | some cap ↦ d.min_of seconds (d.as_secs cap)
  ]

  -- `factor` is what `random_range(0.75..1.25)` returns.
  pub wait_after : RetryPolicy → d.Double → ℕ → ℕ
  wait_after p factor attempt = elim p.delay [
    | some delay ↦ delay attempt
    | none ↦
        let base = if p.base_delay == 0 then default_delay else p.base_delay in
        let seconds = capped p (scaled p attempt (d.as_secs base)) in
        let jittered = if p.jitter then d.mul seconds factor else seconds in
        elim (d.try_from_secs jittered) [ none ↦ duration_max | some w ↦ w ]
  ]

-- `Result<T, RetryDecision<E>>`.
pub data Attempt (T E : Type 0) : Type 0 where
  ok : T → Attempt T E
  retry : E → Attempt T E
  abort : E → Attempt T E

pub data RetryError (E : Type 0) : Type 0 where
  aborted : E → RetryError E
  exhausted : (attempts : ℕ) → E → RetryError E
  wait_failed : E → RetryError E

abbrev into_inner : {E : Type 0} → RetryError E → E
into_inner (aborted e) = e
into_inner (exhausted n e) = e
into_inner (wait_failed e) = e

-- The result of the call; `panicked` is the `unreachable!` behind the loop.
pub data Outcome (T E : Type 0) : Type 0 where
  done : T → Outcome T E
  error : RetryError E → Outcome T E
  panicked : Outcome T E

-- The closures of the caller over a state `S`; `wait` returns its error, if any.
pub record Caller (S T E : Type 0) : Type 0 where
  pub operation : ℕ → S → S × Attempt T E
  pub on_retry : ℕ → ℕ → E → S → S
  pub wait : ℕ → S → S × Option E

module _ {S T E : Type 0} (c : Caller S T E) (wait_after_attempt : ℕ → ℕ) (attempts : ℕ) where
  -- The rest of a round after a failed wait or a wait that is over.
  abbrev pub waited : S × Option E → (S → S × Outcome T E) → S × Outcome T E
  waited (s, none) next = next s
  waited (s, some e) next = (s, error (wait_failed e))

  -- One round, with the rounds after it.
  abbrev pub round : ℕ → (S → S × Outcome T E) → S × Attempt T E → S × Outcome T E
  round attempt next (s, ok value) = (s, done value)
  round attempt next (s, abort e) = (s, error (aborted e))
  round attempt next (s, retry e) =
      let delay = wait_after_attempt attempt in
      if attempt + 1 == attempts
      then (s, error (exhausted attempts e))
      else waited (c.wait delay (c.on_retry attempt delay e s)) next

  -- The loop `for attempt in 0..attempts`, by the rounds left.
  pub rounds : ℕ → ℕ → S → S × Outcome T E
  rounds zero attempt s = (s, panicked)
  rounds (suc left) attempt s =
      round attempt (λ s'. rounds left (attempt + 1) s') (c.operation attempt s)

-- `retry_with`; `factors` are the random factors of the rounds.
unfoldable pub retry_with :
    (d : Doubles) {S T E : Type 0}
    → RetryPolicy d
    → (ℕ → d.Double)
    → Caller S T E
    → S
    → S × Outcome T E
unfolding rounds wait_after
retry_with d policy factors c s =
    let attempts = max policy.attempts 1 in
    rounds c (λ attempt. wait_after d policy (factors attempt) attempt) attempts attempts 0 s
