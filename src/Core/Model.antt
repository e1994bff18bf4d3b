-- ===== src/Core/Model.antt =====
-- src/core/model.rs: sources, links, results and merged links. A `DateTime<Utc>` is the number of
-- nanoseconds since chrono's least time.
pub mod Equality
use panshou.Prelude.{
  ℕ, ◌≡◌, refl, Bool, true, false, ◌&&◌, Option, none, some, List, [], ◌++◌, ◌==◌, Eq,
}
use panshou.Text.{Text, text, text_beq, text_beq_iff}
use panshou.Core.Cloud.{CloudType}

pub data Source : Type 0 where
  telegram provider : Text → Source

abbrev source_name : Source → Text
source_name (telegram channel) = channel
source_name (provider name) = name

-- `Display`.
unfoldable pub source_text : Source → Text
source_text (telegram channel) = text "tg:" ++ channel
source_text (provider name) = text "provider:" ++ name

-- The derived `PartialEq`.
abbrev pub source_beq : Source → Source → Bool
source_beq (telegram a) (telegram b) = text_beq a b
source_beq (provider a) (provider b) = text_beq a b
source_beq _ _ = false

abbrev pub Time : Type 0
Time = ℕ

pub record Link : Type 0 where
  pub cloud_type : CloudType
  pub url : Text
  pub password : Option Text
  pub datetime : Option Time
  pub work_title : Option Text

pub record SearchResult : Type 0 where
  pub id : Text
  pub source : Source
  pub datetime : Option Time
  pub title : Text
  pub content : Text
  pub links : List Link
  pub tags : List Text
  pub images : List Text

abbrev new_result : Text → Source → SearchResult
new_result id source = record {
  id = id;
  source = source;
  datetime = none;
  title = [];
  content = [];
  links = [];
  tags = [];
  images = [];
}

pub data CheckState : Type 0 where
  good bad locked unsupported uncertain : CheckState

pub record CheckResult : Type 0 where
  pub state : CheckState
  pub cache_hit : Bool
  pub checked_at : Option Time
  pub expires_at : Option Time
  pub summary : Option Text

pub record MergedLink : Type 0 where
  pub cloud_type : CloudType
  pub url : Text
  pub password : Option Text
  pub note : Text
  pub datetime : Option Time
  pub source : Source
  pub images : List Text
  pub check : Option CheckResult
