-- ===== src/Check/Item.antt =====
-- src/check/engine.rs: the items and options of a check, the outcomes of a checker, how long a result
-- is kept, and the key under which it is cached.
use panshou.Prelude.{
  ℕ, ◌+◌, ◌*◌, Bool, false, not, Option, none, some, [], ◌++◌, if◌then◌else◌, is_empty,
}
use panshou.Text.{Text, text, trim}
use panshou.Env.{Env}
use panshou.Core.Model.{Link}
use panshou.Check.Normalize.{CheckCloudType, from_cloud, to_string, detect_check_cloud_type}
use panshou.Check.Cache.{CheckState, good, bad, locked, unsupported, uncertain, CheckResult}

pub record CheckItem : Type 0 where
  pub cloud_type : CheckCloudType
  pub url : Text
  pub password : Option Text

-- `From<&Link>`, and `from_link`.
abbrev from_link : Link → CheckItem
from_link link = record {
  cloud_type = from_cloud link.cloud_type;
  url = link.url;
  password = link.password;
}

abbrev detect : Env → Text → CheckItem
detect env url = record { cloud_type = detect_check_cloud_type env url; url = url; password = none }

pub record CheckOptions : Type 0 where
  pub jobs : ℕ
  pub timeout : ℕ
  pub refresh : Bool
  pub no_cache : Bool
  pub proxy_scope : Option Text

abbrev default_options : CheckOptions
default_options = record {
  jobs = 8;
  timeout = 30000000000;
  refresh = false;
  no_cache = false;
  proxy_scope = none;
}

pub data CheckError : Type 0 where
  timeout : CheckError
  network parse protocol cache : Text → CheckError

pub record CheckEvaluation : Type 0 where
  pub state : CheckState
  pub summary : Text

-- `Result<CheckEvaluation, CheckError>`, and the result of a checker under its timeout.
pub data Evaluation : Type 0 where
  evaluated : CheckEvaluation → Evaluation
  failed : CheckError → Evaluation

pub data CheckerRun : Type 0 where
  finished : Evaluation → CheckerRun
  elapsed : CheckerRun

-- `ttl_for_state`, in milliseconds.
abbrev ttl_for_state : CheckState → ℕ
ttl_for_state good = 86400 * 1000
ttl_for_state bad = 21600 * 1000
ttl_for_state locked = 43200 * 1000
ttl_for_state unsupported = 86400 * 1000
ttl_for_state uncertain = 1800 * 1000

-- `result`, with the time of its call.
abbrev pub result : ℕ → CheckItem → Option Text → CheckState → Bool → Text → CheckResult
result checked item normalized state cache_hit summary = record {
  cloud_type = item.cloud_type;
  url = item.url;
  normalized_url = normalized;
  state = state;
  cache_hit = cache_hit;
  checked_at_ms = checked;
  expires_at_ms = checked + ttl_for_state state;
  summary = some summary;
}

module _ (env : Env) where
  abbrev proxy_scope_of : Text → Text
  proxy_scope_of proxy_url = text "proxy:" ++ env.sha256_hex (trim proxy_url)

  abbrev with_proxy_url : CheckOptions → Text → CheckOptions
  with_proxy_url o proxy_url = record o {
    proxy_scope = if not (is_empty (trim proxy_url)) then some (proxy_scope_of proxy_url) else none;
  }

  abbrev password_part : Option Text → Text
  password_part none = []
  password_part (some p) = if not (is_empty p) then text "|password:" ++ env.sha256_hex p else []

  abbrev scope_part : Option Text → Text
  scope_part none = []
  scope_part (some s) = if not (is_empty s) then text "|" ++ s else []

  unfoldable pub cache_key : CheckCloudType → Text → Option Text → Option Text → Text
  unfolding to_string
  cache_key cloud normalized password scope =
      to_string cloud ++ (text "|" ++ (normalized ++ (password_part password ++ scope_part scope)))
