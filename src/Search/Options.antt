-- ===== src/Search/Options.antt =====
-- `SearchOptions` of src/search/engine.rs, what `run` reads from it before its loop, and the tasks
-- that it queues. Of a provider only its metadata is used there.
use panshou.Prelude.{ℕ, suc, Bool, true, false, List, [], ◌∷◌, ◌++◌, if◌then◌else◌, insert, length}
use panshou.Prelude.Int.{ℤ}
use panshou.Text.{Text, text, text_eq}
use panshou.Core.Cloud.{CloudType}
use panshou.Core.Rank.{Priorities}
use panshou.Core.Filter.{FilterOptions}
use panshou.Search.Query.{KeywordFilterMode, Modes}

-- The fields of `ProviderMeta` that a search reads.
pub record ProviderMeta : Type 0 where
  pub name : Text
  pub priority : ℤ
  pub keyword_filter : KeywordFilterMode

pub record SearchOptions : Type 0 where
  pub query : Text
  pub providers : List ProviderMeta
  pub channels : List Text
  pub include : List Text
  pub exclude : List Text
  pub clouds : List CloudType
  pub jobs : ℕ
  pub timeout : ℕ
  pub all_timeout : ℕ

-- `collect` into a map: the last entry of a name stays.
abbrev priorities_from : Priorities → List ProviderMeta → Priorities
priorities_from m [] = m
priorities_from m (p ∷ ps) = priorities_from (insert p.name p.priority m) ps

abbrev modes_from : Modes → List ProviderMeta → Modes
modes_from m [] = m
modes_from m (p ∷ ps) = modes_from (insert p.name p.keyword_filter m) ps

unfoldable pub priorities : SearchOptions → Priorities
unfolding insert
priorities options = priorities_from [] options.providers

unfoldable pub modes : SearchOptions → Modes
unfolding insert
modes options = modes_from [] options.providers

abbrev pub filter_options : SearchOptions → FilterOptions
filter_options options = record {
  include = options.include;
  exclude = options.exclude;
  cloud_types = options.clouds;
}

-- A queued source: its position, the name in its errors, and what is reported if it panics.
pub record Task : Type 0 where
  pub index : ℕ
  pub source : Text
  pub is_provider : Bool

abbrev pub panic_message : Task → Text
panic_message task =
    text (if task.is_provider then "provider panicked" else "Telegram source panicked")

abbrev pub provider_tasks : ℕ → List ProviderMeta → List Task
provider_tasks index [] = []
provider_tasks index (p ∷ ps) =
    record { index = index; source = text "provider:" ++ p.name; is_provider = true }
    ∷ provider_tasks (suc index) ps

abbrev pub channel_tasks : ℕ → List Text → List Task
channel_tasks index [] = []
channel_tasks index (c ∷ cs) =
    record { index = index; source = text "tg:" ++ c; is_provider = false }
    ∷ channel_tasks (suc index) cs

-- The two loops that fill the queue; an index is the length of the queue before the push.
unfoldable pub queue_of : SearchOptions → List Task
queue_of options =
    provider_tasks 0 options.providers ++ channel_tasks (length options.providers) options.channels
