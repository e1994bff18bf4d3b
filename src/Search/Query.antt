-- ===== src/Search/Query.antt =====
-- `apply_query_filter`, `source_error` and `reject_late_source_result` of src/search/engine.rs.
pub mod Laws
use panshou.Prelude.{
  Bool, true, false, not, Option, none, some, List, [], ◌∷◌, if◌then◌else◌, is_empty, retain,
  filter_map, lookup, unwrap_or,
}
use panshou.Text.{Text, text, trim, contains, text_eq}
use panshou.Env.{Env, to_lowercase}
use panshou.Core.Error.{
  ProviderError, timeout, network, parse, auth_required, rate_limited, blocked, protocol,
  unavailable, invalid_source, provider_message,
}
use panshou.Core.Model.{Source, telegram, provider, Link, SearchResult}
use panshou.Core.Filter.{link_title}

-- `KeywordFilterMode` of src/providers/mod.rs.
pub data KeywordFilterMode : Type 0 where
  core by_provider : KeywordFilterMode

abbrev pub Modes : Type 0
Modes = List (Text × KeywordFilterMode)

abbrev is_core : KeywordFilterMode → Bool
is_core core = true
is_core by_provider = false

pub should_filter : Modes → Source → Bool
unfolding lookup
should_filter modes (telegram channel) = true
should_filter modes (provider name) = is_core (unwrap_or (lookup name modes) core)

abbrev pub is_telegram : Source → Bool
is_telegram (telegram channel) = true
is_telegram (provider name) = false

module _ (env : Env) where
  abbrev pub mentions : Text → Text → Bool
  mentions query s = contains query (to_lowercase env s)

  -- The links that the closure of `retain_mut` keeps; the result goes if none are left and it must
  -- have some.
  abbrev pub query_links : Text → SearchResult → List Link
  query_links query r = retain (λ l. mentions query (link_title r.title l)) r.links

  abbrev unless_empty : SearchResult → Option SearchResult
  unless_empty r = if is_empty r.links then none else some r

  pub query_filter_one : Text → Modes → SearchResult → Option SearchResult
  unfolding should_filter to_lowercase
  query_filter_one query modes r =
      if (if is_telegram r.source then mentions query r.content else false)
      then unless_empty r
      else if not (should_filter modes r.source)
      then some r
      else unless_empty (record r { links = query_links query r })

  unfoldable pub apply_query_filter : List SearchResult → Text → Modes → List SearchResult
  unfolding query_filter_one trim
  apply_query_filter results query modes =
      let lower = to_lowercase env (trim query) in
      if is_empty lower then results else filter_map (query_filter_one lower modes) results

pub record SourceError : Type 0 where
  pub source : Text
  pub kind : Text
  pub message : Text

abbrev error_kind : ProviderError → Text
error_kind timeout = text "timeout"
error_kind (network m) = text "network"
error_kind (parse m) = text "parse"
error_kind auth_required = text "auth_required"
error_kind rate_limited = text "rate_limited"
error_kind blocked = text "blocked"
error_kind (protocol m) = text "protocol"
error_kind (unavailable m) = text "unavailable"
error_kind (invalid_source m) = text "invalid_source"

unfoldable pub source_error : Text → ProviderError → SourceError
unfolding provider_message
source_error source e = record {
  source = source;
  kind = error_kind e;
  message = provider_message e;
}

-- What the search of a source comes to under its deadline: it returns, panics, or is cut off.
pub data SourceOutcome : Type 0 where
  batch : List SearchResult → SourceOutcome
  failed : ProviderError → SourceOutcome

pub data Polled : Type 0 where
  returned : SourceOutcome → Polled
  panicked cut_off : Polled

abbrev reject_late_source_result : Bool → SourceOutcome → SourceOutcome
reject_late_source_result late outcome = if late then failed timeout else outcome

-- The chain of `map_err` and `and_then`, then the check of the time.
abbrev pub source_result : (panic_message : Text) → Polled → (late : Bool) → SourceOutcome
source_result panic_message (returned outcome) late = reject_late_source_result late outcome
source_result panic_message panicked late =
    reject_late_source_result late (failed (unavailable panic_message))
source_result panic_message cut_off late = reject_late_source_result late (failed timeout)
