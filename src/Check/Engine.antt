-- ===== src/Check/Engine.antt =====
-- src/check/engine.rs: checking a list of links, each unique one once, with a cache. What the outside
-- answers (the time, the database, the checker of a drive) is given for each unique link. The links
-- are checked concurrently and finish in some order; a task touches only its own key of the cache,
-- so the model runs them one after another in the order in which they finish.
pub mod Grouping
pub mod Caching
pub mod Scatter
pub mod Filling
pub mod Origins
pub mod Outcome
use panshou.Prelude.{
  ℕ, zero, suc, ◌+◌, ◌*◌, Bool, true, false, not, ◌&&◌, ◌||◌, Option, none, some, List, [], ◌∷◌,
  ◌++◌, map, if◌then◌else◌, ◌==◌, is_empty, any, length, set, filter_map, filter_option,
}
use panshou.Prelude.Keyed.{absorb}
use panshou.Text.{Text, text, text_eq, trim}
use panshou.Env.{Env}
use panshou.Core.Model.{Link}
use panshou.Check.Normalize.{
  CheckCloudType, from_cloud, to_string, detect_check_cloud_type, normalize_share_link,
}
use panshou.Check.Item.{
  CheckItem, CheckOptions, CheckError, timeout, network, parse, protocol, cache, Evaluation,
  evaluated, failed, CheckerRun, finished, elapsed, result, cache_key,
}
use panshou.Check.Cache.{
  CheckState, good, bad, locked, unsupported, uncertain, CheckResult, Table, Result, ok, err,
  cache_get, cache_put,
}

-- `UniqueCheck` with its key in the map: the first item of the key, its normalized URL, and the
-- index and URL of every input.
pub record UniqueCheck : Type 0 where
  pub key : Text
  pub item : CheckItem
  pub normalized : Text
  pub inputs : List (ℕ × Text)

-- `and_modify`.
abbrev pub add_inputs : UniqueCheck → UniqueCheck → UniqueCheck
add_inputs old new = record old { inputs = old.inputs ++ new.inputs }

abbrev pub unique_key : UniqueCheck → Text
unique_key u = u.key

abbrev pub Slots : Type 0
Slots = List (Option CheckResult)

pub record Grouped : Type 0 where
  pub slots : Slots
  pub uniques : List UniqueCheck

-- `vec![None; n]`.
abbrev pub empty_slots : List CheckItem → Slots
empty_slots [] = []
empty_slots (i ∷ is) = none ∷ empty_slots is

-- What the outside answers to the task of a unique link.
pub record Observed : Type 0 where
  pub lookup_ms : ℕ
  pub read_ok : Bool
  pub remove_ok : Bool
  pub run : CheckerRun
  pub checked_ms : ℕ
  pub write_ok : Bool

-- Is there a cache, and for which types there is a checker.
pub record CheckEngine : Type 0 where
  pub has_cache : Bool
  pub has_checker : CheckCloudType → Bool

abbrev pub invalid_result : ℕ → CheckItem → CheckResult
invalid_result now item = result now item none uncertain false (text "链接格式无效")

module _ (env : Env) (o : CheckOptions) where
  abbrev pub normalized_of : CheckItem → Option Text
  normalized_of item = normalize_share_link env item.cloud_type item.url item.password

  abbrev pub key_of_item : CheckItem → Text → Text
  key_of_item item normalized = cache_key env item.cloud_type normalized item.password o.proxy_scope

  abbrev pub single : ℕ → CheckItem → Text → UniqueCheck
  single index item normalized = record {
    key = key_of_item item normalized;
    item = item;
    normalized = normalized;
    inputs = (index, item.url) ∷ [];
  }

  -- The loop over the items; `times` are the times of the invalid ones.
  abbrev pub group_one : (ℕ → ℕ) → ℕ → CheckItem → Option Text → Grouped → Grouped
  group_one times index item none g = record g {
    slots = set g.slots index (some (invalid_result (times index) item));
  }
  group_one times index item (some normalized) g = record g {
    uniques = absorb unique_key add_inputs g.uniques (single index item normalized);
  }

  pub group : (ℕ → ℕ) → ℕ → List CheckItem → Grouped → Grouped
  unfolding normalize_share_link cache_key
  group times index [] g = g
  group times index (item ∷ items) g =
      group times (suc index) items (group_one times index item (normalized_of item) g)

module _ (engine : CheckEngine) (o : CheckOptions) where
  abbrev pub evaluation : UniqueCheck → Observed → Evaluation
  evaluation u obs =
      if engine.has_checker u.item.cloud_type
      then elim obs.run [ finished e ↦ e | elapsed ↦ failed timeout ]
      else evaluated (record { state = unsupported; summary = text "当前平台暂不支持检测" })

  abbrev answer_with : UniqueCheck → ℕ → CheckState → Text → CheckResult
  answer_with u now state summary = result now u.item (some u.normalized) state false summary

  -- The answer, and whether it may be cached.
  abbrev pub answer : UniqueCheck → ℕ → Evaluation → CheckResult × Bool
  answer u now (evaluated e) = (answer_with u now e.state e.summary, true)
  answer u now (failed timeout) = (answer_with u now uncertain (text "检测超时"), false)
  answer u now (failed (parse m)) = (answer_with u now uncertain (text "无法确认链接状态"), true)
  answer u now (failed (protocol m)) = (answer_with u now uncertain (text "无法确认链接状态"), true)
  answer u now (failed (network m)) = (answer_with u now uncertain (text "检测失败"), false)
  answer u now (failed (cache m)) = (answer_with u now uncertain (text "检测失败"), false)

  -- The check itself; a failed write is only logged.
  abbrev pub check_fresh : UniqueCheck → Observed → Table → Table × CheckResult
  check_fresh u obs table =
      let (found, cacheable) = answer u obs.checked_ms (evaluation u obs) in
      if cacheable && not o.no_cache && engine.has_cache
      then ((cache_put obs.write_ok u.key found table).0, found)
      else (table, found)

  -- After the lookup: a hit is the answer; a miss or an error is checked.
  abbrev pub after_lookup :
      UniqueCheck → Observed → Table × Result (Option CheckResult) → Table × CheckResult
  after_lookup u obs (table, ok (some cached)) = (table, record cached { cache_hit = true })
  after_lookup u obs (table, ok none) = check_fresh u obs table
  after_lookup u obs (table, err e) = check_fresh u obs table

  -- The task of one unique link.
  pub check_one : UniqueCheck → Observed → Table → Table × CheckResult
  unfolding cache_get cache_put
  check_one u obs table =
      if not o.no_cache && not o.refresh && engine.has_cache
      then after_lookup u obs (cache_get obs.lookup_ms obs.read_ok obs.remove_ok u.key table)
      else check_fresh u obs table

  -- The tasks in the order in which they finish, each with its inputs.
  pub check_all :
      (Text → Observed) → List UniqueCheck → Table → Table × List (List (ℕ × Text) × CheckResult)
  unfolding check_one
  check_all observed [] table = (table, [])
  check_all observed (u ∷ us) table =
      let (table', found) = check_one u (observed u.key) table in
      let (last, answers) = check_all observed us table' in (last, (u.inputs, found) ∷ answers)

-- The two loops that restore the input order.
abbrev pub restore_inputs : CheckResult → List (ℕ × Text) → Slots → Slots
restore_inputs found [] slots = slots
restore_inputs found ((index, url) ∷ inputs) slots =
    restore_inputs found inputs (set slots index (some (record found { url = url })))

abbrev pub restore : List (List (ℕ × Text) × CheckResult) → Slots → Slots
restore [] slots = slots
restore ((inputs, found) ∷ answers) slots = restore answers (restore_inputs found inputs slots)

-- `into_iter().flatten()`.
abbrev pub filled : Slots → List CheckResult
filled slots = filter_map (λ s. s) slots

-- `check`; `finish_order` lists the unique links in the order in which their tasks finish.
unfoldable pub check :
    Env
    → CheckEngine
    → CheckOptions
    → (times : ℕ → ℕ) → (observed : Text → Observed)
    → (finish_order : List UniqueCheck → List UniqueCheck) → List CheckItem
    → Table
    → Table × List CheckResult
unfolding group check_all
check env engine o times observed finish_order [] table = (table, [])
check env engine o times observed finish_order (item ∷ items) table =
    let all = item ∷ items in
    let g = group env o times 0 all (record { slots = empty_slots all; uniques = [] }) in
    let (table', answers) = check_all engine o observed (finish_order g.uniques) table in
    (table', filled (restore answers g.slots))
