-- ===== src/Http/Retry/Trace.antt =====
-- Which calls the loop makes: the observer and the wait stand between two attempts, and nowhere else.
use panshou.Prelude.{
  ℕ, zero, suc, ◌+◌, ◌<◌, ◌≡◌, ◌≢◌, refl, sym, ◌∙◌, ap, max, Bool, true, false, none, List, [], ◌∷◌,
  ◌++◌, append_assoc, arith, ◌==◌, ==_iff, Bool-cases, inl, inr,
}
use panshou.Http.Retry.{
  Doubles, RetryPolicy, wait_after, Attempt, ok, retry, abort, aborted, exhausted, Outcome, done,
  error, Caller, round, rounds, retry_with,
}

pub data Event : Type 0 where
  called : (attempt : ℕ) → Event
  observed : (attempt delay : ℕ) → Event
  slept : (delay : ℕ) → Event

-- A caller that only records, whose operation answers by a script and whose waits succeed.
abbrev pub recorder : {T E : Type 0} → (ℕ → Attempt T E) → Caller (List Event) T E
recorder script = record {
  operation = λ n s. (s ++ called n ∷ [], script n);
  on_retry = λ n delay e s. s ++ observed n delay ∷ [];
  wait = λ delay s. (s ++ slept delay ∷ [], none);
}

-- The events of `k` retried rounds from the given attempt on.
abbrev pub retried_rounds : (ℕ → ℕ) → ℕ → ℕ → List Event
retried_rounds w from zero = []
retried_rounds w from (suc k) =
    called from ∷ observed from (w from) ∷ slept (w from) ∷ retried_rounds w (from + 1) k

-- The result of the last attempt.
abbrev pub final : {T E : Type 0} → ℕ → Attempt T E → Outcome T E
final n (ok v) = done v
final n (abort e) = error (aborted e)
final n (retry e) = error (exhausted n e)

abbrev pub is_retry : {T E : Type 0} → Attempt T E → Bool
is_retry (retry e) = true
is_retry _ = false

module _ {T E : Type 0} (script : ℕ → Attempt T E) (w : ℕ → ℕ) (n : ℕ) where
  round_last :
      (attempt : ℕ) (next : List Event → List Event × Outcome T E) (s : List Event)
      (a : Attempt T E)
      → (is_retry a ≡ true → attempt + 1 ≡ n)
      → round (recorder script) w n attempt next (s, a) ≡ (s, final n a)
  round_last attempt next s (ok v) h = refl
  round_last attempt next s (abort e) h = refl
  round_last attempt next s (retry e) h = rw ((==_iff (attempt + 1) n).1 (h refl))

  round_retried :
      (attempt : ℕ) (next : List Event → List Event × Outcome T E) (s : List Event)
      (a : Attempt T E)
      → is_retry a ≡ true
      → attempt + 1 ≢ n
      → round (recorder script) w n attempt next (s, a)
        ≡ next ((s ++ observed attempt (w attempt) ∷ []) ++ slept (w attempt) ∷ [])
  round_retried attempt next s (ok v) r h = absurd (cc)
  round_retried attempt next s (abort e) r h = absurd (cc)
  round_retried attempt next s (retry e) r h = elim (Bool-cases (attempt + 1 == n)) [
    | inl last ↦ absurd (h ((==_iff (attempt + 1) n).0 last))
    | inr more ↦ rw more
  ]

  rounds-trace :
      (left from k last : ℕ) (s : List Event)
      → from + k ≡ last
      → k < left
      → from + left ≡ n
      → ((j : ℕ) → j < last → is_retry (script j) ≡ true)
      → (is_retry (script last) ≡ true → last + 1 ≡ n)
      → rounds (recorder script) w n left from s
        ≡ (s ++ (retried_rounds w from k ++ called last ∷ []), final n (script last))
  unfolding rounds
  rounds-trace zero from k last s e h t r f = elim h [ ]
  rounds-trace (suc left) from zero last s e h t r f =
      let here : last ≡ from = omega arith in
      round_last from (λ s'. rounds (recorder script) w n left (from + 1) s')
        (s ++ called from ∷ []) (script from)
        (λ q. ap (λ a. a + 1) (sym here) ∙ f (ap (λ a. is_retry (script a)) here ∙ q))
      ∙ ap (λ a. (s ++ called a ∷ [], final n (script a))) (sym here)
  rounds-trace (suc left) from (suc k) last s e h t r f =
      round_retried from (λ s'. rounds (recorder script) w n left (from + 1) s')
        (s ++ called from ∷ []) (script from) (r from (omega arith)) (λ q. absurd (omega arith))
      ∙ rounds-trace left (from + 1) k last
          (((s ++ called from ∷ []) ++ observed from (w from) ∷ []) ++ slept (w from) ∷ [])
          (omega arith) (omega arith) (omega arith) r f
      ∙ ap (λ l. (l, final n (script last))) (simp append_assoc)

-- If the attempts before `last` ask for a retry, and `last` does not or is the last that the policy
-- allows, then the call makes the attempts 0 to `last` in order, after each but the last of them
-- calls the observer and sleeps for the policy's delay once, and returns the result of `last`: its
-- value, its error as an abort, or exhaustion with its error. Nothing is observed or slept after it.
pub retry_with-trace :
    (d : Doubles) {T E : Type 0} (policy : RetryPolicy d) (factors : ℕ → d.Double)
    (script : ℕ → Attempt T E) (last : ℕ)
    → last < max policy.attempts 1
    → ((j : ℕ) → j < last → is_retry (script j) ≡ true)
    → (is_retry (script last) ≡ true → last + 1 ≡ max policy.attempts 1)
    → retry_with d policy factors (recorder script) [] ≡ (
      retried_rounds (λ a. wait_after d policy (factors a) a) 0 last ++ called last ∷ [],
      final (max policy.attempts 1) (script last),
    )
unfolding retry_with
retry_with-trace d policy factors script last h r f =
    let n = max policy.attempts 1 in
    rounds-trace script (λ a. wait_after d policy (factors a) a) n n 0 last last [] (omega arith) h
      (omega arith) r f
