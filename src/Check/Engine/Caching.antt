-- ===== src/Check/Engine/Caching.antt =====
-- When the answer to a link comes from the cache, and when it goes there.
use panshou.Prelude.{
  ℕ, ◌≡◌, refl, sym, ◌∙◌, ap, Bool, true, false, not, ◌&&◌, Option, none, some, arith,
  if◌then◌else◌, lookup, lookup-insert, lookup-remove, Bool-cases, Option-cases, inl, inr,
}
use panshou.Text.{Text, text_beq, text_beq_iff, text_eq}
use panshou.Check.Cache.{
  CheckResult, Stored, json, corrupt, Result, ok, err, Table, is_expired, cache_remove, cache_put,
  read_entry, cache_get,
}
use panshou.Check.Cache.Laws.{cache_get-cache_put}
use panshou.Check.Item.{CheckOptions}
use panshou.Check.Engine.{
  UniqueCheck, Observed, CheckEngine, evaluation, answer, check_fresh, after_lookup, check_one,
}

cache_get-other :
    (now : ℕ) (r w : Bool) (key j : Text) (t : Table)
    → text_beq key j ≡ false
    → lookup j (cache_get now r w key t).0 ≡ lookup j t
unfolding cache_get cache_remove
cache_get-other now false w key j t h = refl
cache_get-other now true w key j t h = elim (Option-cases (lookup key t)) [
  | inl e ↦ rw e
  | inr (v, e) ↦ rw e (entry v)
]
  where
    entry : (v : Stored) → lookup j (read_entry now w key t (some v)).0 ≡ lookup j t
    entry corrupt = refl
    entry (json r) = ground (arith, lookup-remove key j t)

cache_put-other :
    (w : Bool) (key j : Text) (r : CheckResult) (t : Table)
    → text_beq key j ≡ false
    → lookup j (cache_put w key r t).0 ≡ lookup j t
unfolding cache_put
cache_put-other w key j r t h = ground (arith, lookup-insert key j (json r) t)

cache_get-local :
    (now : ℕ) (r w : Bool) (key : Text) (t t' : Table)
    → lookup key t ≡ lookup key t'
    → (cache_get now r w key t).1 ≡ (cache_get now r w key t').1
unfolding cache_get cache_remove
cache_get-local now false w key t t' h = refl
cache_get-local now true w key t t' h = rw h (entry (lookup key t'))
  where
    entry : (v : Option Stored) → (read_entry now w key t v).1 ≡ (read_entry now w key t' v).1
    entry none = refl
    entry (some corrupt) = refl
    entry (some (json r)) = ground arith

module _ (engine : CheckEngine) (o : CheckOptions) (u : UniqueCheck) (obs : Observed) where
  abbrev pub fresh_answer : CheckResult
  fresh_answer = (answer engine o u obs.checked_ms (evaluation engine o u obs)).0

  check_fresh-answer : (t : Table) → (check_fresh engine o u obs t).1 ≡ fresh_answer
  check_fresh-answer t = ground arith

  check_fresh-other :
      (j : Text) (t : Table)
      → text_beq u.key j ≡ false
      → lookup j (check_fresh engine o u obs t).0 ≡ lookup j t
  check_fresh-other j t h = ground (arith, cache_put-other obs.write_ok u.key j fresh_answer t)

  abbrev after_answer : Result (Option CheckResult) → CheckResult
  after_answer (ok (some c)) = record c { cache_hit = true }
  after_answer (ok none) = fresh_answer
  after_answer (err e) = fresh_answer

  after_lookup-answer :
      (p : Table × Result (Option CheckResult))
      → (after_lookup engine o u obs p).1 ≡ after_answer p.1
  after_lookup-answer (t, ok (some c)) = refl
  after_lookup-answer (t, ok none) = check_fresh-answer t
  after_lookup-answer (t, err e) = check_fresh-answer t

  after_lookup-other :
      (j : Text) (p : Table × Result (Option CheckResult))
      → text_beq u.key j ≡ false
      → lookup j (after_lookup engine o u obs p).0 ≡ lookup j p.0
  after_lookup-other j (t, ok (some c)) h = refl
  after_lookup-other j (t, ok none) h = check_fresh-other j t h
  after_lookup-other j (t, err e) h = check_fresh-other j t h

  abbrev reads_cache : Bool
  reads_cache = not o.no_cache && not o.refresh && engine.has_cache

  -- A task leaves the entries of all other keys alone.
  pub check_one_other :
      (j : Text) (t : Table)
      → text_beq u.key j ≡ false
      → lookup j (check_one engine o u obs t).0 ≡ lookup j t
  unfolding check_one
  check_one_other j t h = elim (Bool-cases reads_cache) [
    | inl e ↦ rw e (
        after_lookup-other j (cache_get obs.lookup_ms obs.read_ok obs.remove_ok u.key t) h
        ∙ cache_get-other obs.lookup_ms obs.read_ok obs.remove_ok u.key j t h)
    | inr e ↦ rw e (check_fresh-other j t h)
  ]

  -- Its answer depends on no other entry.
  pub check_one_local :
      (t t' : Table)
      → lookup u.key t ≡ lookup u.key t'
      → (check_one engine o u obs t).1 ≡ (check_one engine o u obs t').1
  unfolding check_one
  check_one_local t t' h = elim (Bool-cases reads_cache) [
    | inl e ↦ rw e (
        after_lookup-answer (cache_get obs.lookup_ms obs.read_ok obs.remove_ok u.key t)
        ∙ ap after_answer (cache_get-local obs.lookup_ms obs.read_ok obs.remove_ok u.key t t' h)
        ∙ sym (after_lookup-answer (cache_get obs.lookup_ms obs.read_ok obs.remove_ok u.key t')))
    | inr e ↦ rw e (check_fresh-answer t ∙ sym (check_fresh-answer t'))
  ]

  fresh_answer-no_hit : fresh_answer.cache_hit ≡ false
  fresh_answer-no_hit = ground arith

  check_one_direct :
      (t : Table) → reads_cache ≡ false → check_one engine o u obs t ≡ check_fresh engine o u obs t
  unfolding check_one
  check_one_direct t h = rw h

  check_fresh_unwritten :
      (t : Table)
      → (answer engine o u obs.checked_ms (evaluation engine o u obs)).1
          && not o.no_cache
          && engine.has_cache
        ≡ false
      → check_fresh engine o u obs t ≡ (t, fresh_answer)
  check_fresh_unwritten t h = rw h

  -- With `no_cache` the answer is a new one, not marked as a hit, and the table is as it was.
  pub check_one_no_cache :
      (t : Table)
      → o.no_cache ≡ true
      → (check_one engine o u obs t ≡ (t, fresh_answer)) × (fresh_answer.cache_hit ≡ false)
  check_one_no_cache t h = (
    check_one_direct t (ground arith) ∙ check_fresh_unwritten t (ground arith),
    fresh_answer-no_hit,
  )

  written-cache_get :
      (t : Table) (later : ℕ)
      → engine.has_cache ≡ true
      → o.no_cache ≡ false
      → obs.write_ok ≡ true
      → let (found, cacheable) = answer engine o u obs.checked_ms (evaluation engine o u obs) in
        (cache_get later true true u.key (check_fresh engine o u obs t).0).1 ≡ (
          if cacheable
          then (if is_expired later found then ok none else ok (some found))
          else (cache_get later true true u.key t).1)
  written-cache_get t later c n w =
      let cacheable = (answer engine o u obs.checked_ms (evaluation engine o u obs)).1 in
      elim (Bool-cases cacheable) [
        | inl e ↦
            rw (e, n, c, w)
              (cache_get-cache_put later u.key u.key fresh_answer t
                ∙ rw ((text_beq_iff u.key u.key).1 refl))
        | inr e ↦ rw e
      ]

  -- With `refresh` the answer is a new one, whatever is cached. If it is cacheable, a later lookup
  -- finds it until it expires; if it is not (a timeout, a failed request), a later lookup finds what
  -- it would have found before.
  pub check_one_refresh :
      (t : Table) (later : ℕ)
      → engine.has_cache ≡ true
      → o.no_cache ≡ false
      → o.refresh ≡ true
      → obs.write_ok ≡ true
      → let (found, cacheable) = answer engine o u obs.checked_ms (evaluation engine o u obs) in
        ((check_one engine o u obs t).1 ≡ found)
        × ((cache_get later true true u.key (check_one engine o u obs t).0).1 ≡ (
            if cacheable
            then (if is_expired later found then ok none else ok (some found))
            else (cache_get later true true u.key t).1))
  check_one_refresh t later c n f w =
      let direct = check_one_direct t (ground arith) in
      (
        ap (λ p. p.1) direct ∙ check_fresh-answer t,
        ap (λ p. (cache_get later true true u.key p.0).1) direct ∙ written-cache_get t later c n w,
      )
