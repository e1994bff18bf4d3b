-- ===== src/Tests/Checking.antt =====
-- Runs of the checks of links and of their cache.
use mathlib.Core.List.Permᴰ
use panshou.Prelude.{
  ◌≡◌, refl, ◌<◌, true, false, none, some, List, [], ◌∷◌, map, lookup, if◌then◌else◌,
}
use panshou.Text.{text, text_beq, text_eq, to_ascii_lowercase}
use panshou.Check.Normalize.{baidu}
use panshou.Check.Cache.{
  good, CheckResult, json, corrupt, Table, ok, is_expired, cache_get, cache_put, prune_expired,
}
use panshou.Check.Cache.Laws.{
  cache_get-cache_put, cache_get-fresh, unless_stale, lookup-prune_expired,
}
use panshou.Check.Item.{CheckItem, CheckOptions, evaluated, finished}
use panshou.Check.Engine.{UniqueCheck, Observed, CheckEngine, evaluation, answer, check_one, check}
use panshou.Check.Engine.Caching.{check_one_refresh}
use panshou.Check.Engine.Outcome.{expected, check-expected}
use panshou.Tests.{sample_env, baidu_url}

abbrev check_options : CheckOptions
check_options = record {
  jobs = 8;
  timeout = 30;
  refresh = false;
  no_cache = false;
  proxy_scope = none;
}

abbrev refreshing : CheckOptions
refreshing = record check_options { refresh = true }

abbrev uncached : CheckOptions
uncached = record check_options { no_cache = true }

abbrev engine : CheckEngine
engine = record { has_cache = true; has_checker = λ c. true }

-- One share under two URLs, and a text that is no link.
abbrev items : List CheckItem
items =
    record { cloud_type = baidu; url = baidu_url; password = none }
    ∷ record { cloud_type = baidu; url = text "no link"; password = none }
    ∷ record { cloud_type = baidu; url = text " https://PAN.baidu.com/s/1"; password = none }
    ∷ []

abbrev observed : Observed
observed = record {
  lookup_ms = 5;
  read_ok = true;
  remove_ok = true;
  run = finished (evaluated (record { state = good; summary = text "ok" }));
  checked_ms = 6;
  write_ok = true;
}

abbrev unique : UniqueCheck
unique = record {
  key = text "baidu|x";
  item = record { cloud_type = baidu; url = baidu_url; password = none };
  normalized = baidu_url;
  inputs = [];
}

abbrev cached : CheckResult
cached = record {
  cloud_type = baidu;
  url = baidu_url;
  normalized_url = some baidu_url;
  state = good;
  cache_hit = false;
  checked_at_ms = 1;
  expires_at_ms = 10;
  summary = none;
}

abbrev table : Table
table = (text "baidu|x", json cached) ∷ (text "quark|y", corrupt) ∷ []

-- The results have the items' own URLs.
restored :
    map
      (λ r. r.url)
      (check sample_env engine check_options (λ i. i) (λ k. observed) (λ us. us) items []).1
    ≡ baidu_url ∷ text "no link" ∷ text " https://PAN.baidu.com/s/1" ∷ []
unfolding check to_ascii_lowercase
restored = refl

check-expected_example :
    (check sample_env engine check_options (λ i. i) (λ k. observed) (λ us. us) items table).1
    ≡ expected sample_env engine check_options (λ i. i) (λ k. observed) table items 0 items
check-expected_example =
    check-expected sample_env engine check_options (λ i. i) (λ k. observed) table (λ us. us)
      (λ us. Permᴰ.refl us) items

check_one_refresh_example :
    let (found, cacheable) =
      answer engine refreshing unique 6 (evaluation engine refreshing unique observed) in
    ((check_one engine refreshing unique observed table).1 ≡ found)
    × ((cache_get 7 true true unique.key (check_one engine refreshing unique observed table).0).1
        ≡ (if cacheable
            then (if is_expired 7 found then ok none else ok (some found))
            else (cache_get 7 true true unique.key table).1))
check_one_refresh_example =
    check_one_refresh engine refreshing unique observed table 7 refl refl refl refl

cache_get-cache_put_example :
    (cache_get 4 true true (text "k") (cache_put true (text "k") cached table).0).1 ≡ (
      if text_beq (text "k") (text "k")
      then (if is_expired 4 cached then ok none else ok (some cached))
      else (cache_get 4 true true (text "k") table).1)
cache_get-cache_put_example = cache_get-cache_put 4 (text "k") (text "k") cached table

cache_get-fresh_example :
    (4 < 10)
    × (lookup (text "baidu|x") table ≡ some (json cached))
    × ((cache_get 4 true true (text "baidu|x") table).0 ≡ table)
unfolding cache_get
cache_get-fresh_example = cache_get-fresh 4 true true (text "baidu|x") table {r = cached} refl

lookup-prune_expired_example :
    lookup (text "baidu|x") (prune_expired 10 true true table).0
    ≡ unless_stale 10 (lookup (text "baidu|x") table)
lookup-prune_expired_example = lookup-prune_expired 10 (text "baidu|x") table (refl, (refl, tt))
