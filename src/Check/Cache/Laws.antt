-- ===== src/Check/Cache/Laws.antt =====
-- What the cache returns, and what pruning leaves.
use panshou.Prelude.{
  ℕ, ◌<◌, ◌≡◌, refl, sym, ◌∙◌, ap, Bool, true, false, Option, none, some, List, [], ◌∷◌, arith,
  if◌then◌else◌, is_empty, any, lookup, insert, remove, lookup-insert, lookup-remove, Bool-cases,
  Option-cases, inl, inr,
}
use panshou.Prelude.Keyed.{has_key, Distinct}
use panshou.Text.{Text, text_beq, text_beq_iff, text_eq}
use panshou.Check.Cache.{
  CheckResult, Stored, json, corrupt, serialization, Result, ok, err, Table, is_expired,
  cache_remove, cache_put, read_entry, cache_get, is_stale, stale_keys, remove_all, prune_expired,
}

-- What a lookup answers, by what is stored.
abbrev answer_of : ℕ → Option Stored → Result (Option CheckResult)
answer_of now none = ok none
answer_of now (some corrupt) = err serialization
answer_of now (some (json r)) = if is_expired now r then ok none else ok (some r)

cache_get-answer :
    (now : ℕ) (key : Text) (t : Table)
    → (cache_get now true true key t).1 ≡ answer_of now (lookup key t)
unfolding cache_get
cache_get-answer now key t = elim (Option-cases (lookup key t)) [
  | inl e ↦ rw e
  | inr (v, e) ↦ rw e (go v)
]
  where
    go : (v : Stored) → (read_entry now true key t (some v)).1 ≡ answer_of now (some v)
    go corrupt = refl
    go (json r) = ground arith

-- A lookup after a write of a key gives the written result until it expires and nothing from then
-- on; a lookup of another key gives what it gave before the write.
pub cache_get-cache_put :
    (now : ℕ) (key j : Text) (r : CheckResult) (t : Table)
    → (cache_get now true true j (cache_put true key r t).0).1 ≡ (
        if text_beq key j
        then (if is_expired now r then ok none else ok (some r))
        else (cache_get now true true j t).1)
unfolding cache_put
cache_get-cache_put now key j r t =
    cache_get-answer now j (insert key (json r) t)
    ∙ ap (answer_of now) (lookup-insert key j (json r) t)
    ∙ split (text_beq key j)
  where
    split :
        (b : Bool)
        → answer_of now (if b then some (json r) else lookup j t) ≡ (
            if b
            then (if is_expired now r then ok none else ok (some r))
            else (cache_get now true true j t).1)
    split true = refl
    split false = sym (cache_get-answer now j t)

-- A result that a lookup returns is the stored one, it has not expired, and the table is unchanged,
-- also where transactions may fail.
pub cache_get-fresh :
    (now : ℕ) (read_ok write_ok : Bool) (key : Text) (t : Table) {r : CheckResult}
    → (cache_get now read_ok write_ok key t).1 ≡ ok (some r)
    → (now < r.expires_at_ms)
      × (lookup key t ≡ some (json r))
      × ((cache_get now read_ok write_ok key t).0 ≡ t)
unfolding cache_get cache_remove
cache_get-fresh now false write_ok key t h = absurd (cc)
cache_get-fresh now true write_ok key t {r} h = ground arith

lookup-remove_all :
    (j : Text) (ks : List Text) (t : Table)
    → lookup j (remove_all ks t) ≡ (if any (λ k. text_beq k j) ks then none else lookup j t)
lookup-remove_all j [] t = refl
lookup-remove_all j (k ∷ ks) t =
    lookup-remove_all j ks (remove k t) ∙ ground (arith, lookup-remove k j t)

abbrev key_of : Text × Stored → Text
key_of e = e.0

not-stale_of_absent :
    (now : ℕ) (j : Text) (t : Table)
    → has_key key_of j t ≡ false
    → any (λ k. text_beq k j) (stale_keys now t) ≡ false
not-stale_of_absent now j [] h = refl
not-stale_of_absent now j ((k, v) ∷ t) h = ground (arith, not-stale_of_absent now j t)

lookup_of_absent : (j : Text) (t : Table) → has_key key_of j t ≡ false → lookup j t ≡ none
unfolding lookup
lookup_of_absent j [] h = refl
lookup_of_absent j ((k, v) ∷ t) h = ground (arith, lookup_of_absent j t)

-- What pruning leaves of an entry.
abbrev pub unless_stale : ℕ → Option Stored → Option Stored
unless_stale now none = none
unless_stale now (some v) = if is_stale now v then none else some v

stale_keys-lookup :
    (now : ℕ) (j : Text) (t : Table)
    → Distinct key_of t
    → (if any (λ k. text_beq k j) (stale_keys now t) then none else lookup j t)
      ≡ unless_stale now (lookup j t)
unfolding lookup
stale_keys-lookup now j [] d = refl
stale_keys-lookup now j ((k, v) ∷ t) d = elim (Bool-cases (text_beq k j)) [
  | inl here ↦
      let same = (text_beq_iff k j).0 here in
      let rest = not-stale_of_absent now j t (ap (λ i. has_key key_of i t) (sym same) ∙ d.0) in
      ground arith
  | inr other ↦ ground (arith, stale_keys-lookup now j t d.1)
]

-- A successful pruning removes exactly the entries that have expired or are corrupt: for every key,
-- what is left is what was there unless it was stale.
pub lookup-prune_expired :
    (now : ℕ) (j : Text) (t : Table)
    → Distinct key_of t
    → lookup j (prune_expired now true true t).0 ≡ unless_stale now (lookup j t)
unfolding prune_expired
lookup-prune_expired now j t d = elim (Bool-cases (is_empty (stale_keys now t))) [
  | inl none_stale ↦ rw none_stale (ground (arith, stale_keys-lookup now j t d))
  | inr some_stale ↦
      rw some_stale (lookup-remove_all j (stale_keys now t) t ∙ stale_keys-lookup now j t d)
]
