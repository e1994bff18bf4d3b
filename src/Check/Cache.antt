-- ===== src/Check/Cache.antt =====
-- src/check/cache.rs: the check results on disk. The table of the `redb` database is an association
-- list of keys and stored bytes; bytes are the result that they stand for, or corrupt. A read or
-- write transaction of the database may fail (the arguments `read_ok` and `write_ok`), and then the
-- table is what it was. Times are milliseconds since the epoch.
pub mod Laws
use panshou.Prelude.{
  ℕ, zero, suc, ◌+◌, Bool, true, false, ◌||◌, Option, none, some, List, [], ◌∷◌, ◌++◌, leb,
  if◌then◌else◌, is_empty, length, lookup, insert, remove,
}
use panshou.Text.{Text, text_eq}
use panshou.Check.Normalize.{CheckCloudType}

pub data CheckState : Type 0 where
  good bad locked unsupported uncertain : CheckState

pub record CheckResult : Type 0 where
  pub cloud_type : CheckCloudType
  pub url : Text
  pub normalized_url : Option Text
  pub state : CheckState
  pub cache_hit : Bool
  pub checked_at_ms : ℕ
  pub expires_at_ms : ℕ
  pub summary : Option Text

pub data Stored : Type 0 where
  json : CheckResult → Stored
  corrupt : Stored

pub data CacheError : Type 0 where
  database serialization : CacheError

pub data Result (A : Type 0) : Type 0 where
  ok : A → Result A
  err : CacheError → Result A

abbrev pub Table : Type 0
Table = List (Text × Stored)

abbrev pub is_expired : ℕ → CheckResult → Bool
is_expired now r = leb r.expires_at_ms now

unfoldable pub cache_remove : Bool → Text → Table → Table × Result (Unit {0})
unfolding remove
cache_remove write_ok key table =
    if write_ok then (remove key table, ok tt) else (table, err database)

unfoldable pub cache_put : Bool → Text → CheckResult → Table → Table × Result (Unit {0})
unfolding insert
cache_put write_ok key result table =
    if write_ok then (insert key (json result) table, ok tt) else (table, err database)

-- `?` on a removal, and then `Ok(None)`.
abbrev then_none : Table × Result (Unit {0}) → Table × Result (Option CheckResult)
then_none (table, ok _) = (table, ok none)
then_none (table, err e) = (table, err e)

abbrev pub read_entry :
    ℕ → Bool → Text → Table → Option Stored → Table × Result (Option CheckResult)
read_entry now write_ok key table none = (table, ok none)
read_entry now write_ok key table (some corrupt) = (table, err serialization)
read_entry now write_ok key table (some (json r)) =
    if is_expired now r then then_none (cache_remove write_ok key table) else (table, ok (some r))

unfoldable pub cache_get :
    ℕ → (read_ok write_ok : Bool) → Text → Table → Table × Result (Option CheckResult)
unfolding cache_remove lookup
cache_get now read_ok write_ok key table =
    if read_ok then read_entry now write_ok key table (lookup key table) else (table, err database)

abbrev pub is_stale : ℕ → Stored → Bool
is_stale now (json r) = is_expired now r
is_stale now corrupt = true

abbrev pub stale_keys : ℕ → Table → List Text
stale_keys now [] = []
stale_keys now ((key, v) ∷ table) =
    if is_stale now v then key ∷ stale_keys now table else stale_keys now table

abbrev pub remove_all : List Text → Table → Table
remove_all [] table = table
remove_all (k ∷ ks) table = remove_all ks (remove k table)

pub prune_expired : ℕ → (read_ok write_ok : Bool) → Table → Table × Result ℕ
unfolding remove
prune_expired now read_ok write_ok table =
    let stale = stale_keys now table in
    if read_ok
    then if is_empty stale
      then (table, ok 0)
      else if write_ok
      then (remove_all stale table, ok (length stale))
      else (table, err database)
    else (table, err database)
