-- ===== src/Http/Retry/Bounded.antt =====
-- The loop always returns, and its attempts are bounded.
use panshou.Prelude.{
  ℕ, zero, suc, ◌+◌, ◌≡◌, ◌≢◌, refl, max, Option, none, some, arith, ◌==◌, Bool-cases, inl, inr,
}
use panshou.Http.Retry.{
  Doubles, RetryPolicy, wait_after, Attempt, ok, retry, abort, aborted, exhausted, wait_failed,
  Outcome, done, error, panicked, Caller, waited, round, rounds, retry_with,
}

-- What a result may be: a value, or an error; exhaustion only after exactly the given attempts.
abbrev pub IsProper : {T E : Type 0} → ℕ → Outcome T E → Type 0
IsProper n (done v) = Unit
IsProper n (error (aborted e)) = Unit
IsProper n (error (exhausted m e)) = m ≡ n
IsProper n (error (wait_failed e)) = Unit
IsProper n panicked = ⊥

module _ {S T E : Type 0} (c : Caller S T E) (w : ℕ → ℕ) (n : ℕ) where
  waited-IsProper :
      (r : S × Option E) (next : S → S × Outcome T E)
      → ((s : S) → IsProper n (next s).1)
      → IsProper n (waited c w n r next).1
  waited-IsProper (s, none) next h = h s
  waited-IsProper (s, some e) next h = tt

  round-IsProper :
      (attempt : ℕ) (next : S → S × Outcome T E) (r : S × Attempt T E)
      → ((attempt + 1 ≡ n → ⊥) → (s : S) → IsProper n (next s).1)
      → IsProper n (round c w n attempt next r).1
  round-IsProper attempt next (s, ok v) h = tt
  round-IsProper attempt next (s, abort e) h = tt
  round-IsProper attempt next (s, retry e) h = elim (Bool-cases (attempt + 1 == n)) [
    | inl last ↦ rw last refl
    | inr more ↦ rw more (
        waited-IsProper (c.wait (w attempt) (c.on_retry attempt (w attempt) e s)) next
          (h (λ q. ground arith)))
  ]

  rounds-IsProper :
      (left attempt : ℕ) (s : S)
      → attempt + left ≡ n
      → 0 ≢ left
      → IsProper n (rounds c w n left attempt s).1
  unfolding rounds
  rounds-IsProper zero attempt s h nonzero = nonzero refl
  rounds-IsProper (suc left) attempt s h nonzero =
      round-IsProper attempt (λ s'. rounds c w n left (attempt + 1) s') (c.operation attempt s)
        (λ more s'. rounds-IsProper left (attempt + 1) s' (omega arith) (λ q. more (omega arith)))

-- Whatever the operation, the observer and the wait do, the call returns a value or an error and
-- never reaches `unreachable!`, and it reports exhaustion only with the policy's number of attempts,
-- where zero counts as one.
pub retry_with-IsProper :
    (d : Doubles) {S T E : Type 0} (policy : RetryPolicy d) (factors : ℕ → d.Double)
    (c : Caller S T E) (s : S)
    → IsProper (max policy.attempts 1) (retry_with d policy factors c s).1
unfolding retry_with
retry_with-IsProper d policy factors c s =
    rounds-IsProper c (λ attempt. wait_after d policy (factors attempt) attempt)
      (max policy.attempts 1) (max policy.attempts 1) 0 s (omega arith) (omega arith)
