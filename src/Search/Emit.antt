-- ===== src/Search/Emit.antt =====
-- The events of a search, and the loops of src/search/engine.rs that emit links.
pub mod Stream
use panshou.Prelude.{
  ℕ, Bool, Option, none, some, List, [], ◌∷◌, ◌++◌, if◌then◌else◌, length, lookup, insert,
  or_option,
}
use panshou.Text.{Text, text_eq}
use panshou.Env.{Env}
use panshou.Core.Model.{MergedLink}
use panshou.Core.Model.Equality.{merged_beq}
use panshou.Core.Link.Normalize.{canonical_url_key}
use panshou.Search.Query.{SourceError}

pub data FinishReason : Type 0 where
  completed deadline interrupted : FinishReason

-- Without the two durations, which are read from the clock and only reported.
pub record SearchSummary : Type 0 where
  pub total_links : ℕ
  pub sources_selected : ℕ
  pub sources_completed : ℕ
  pub sources_failed : ℕ
  pub sources_cancelled : ℕ
  pub sources_not_started : ℕ
  pub partial : Bool
  pub finish_reason : FinishReason

pub data SearchEvent : Type 0 where
  result : (id : Text) → MergedLink → SearchEvent
  result_update : (id : Text) → MergedLink → SearchEvent
  error : SourceError → SearchEvent
  progress : (done selected links : ℕ) → SearchEvent
  summary : SearchSummary → SearchEvent

-- The links by id, and the events sent.
pub record Emission : Type 0 where
  pub emitted : List (Text × MergedLink)
  pub events : List SearchEvent

abbrev pub nothing_emitted : Emission
nothing_emitted = record { emitted = []; events = [] }

-- `emit`; without a sender nothing is sent.
abbrev pub send : Bool → SearchEvent → Emission → Emission
send has_sender event e = if has_sender then record e { events = e.events ++ event ∷ [] } else e

-- A newer duplicate must not erase a known password.
abbrev pub with_known_password : MergedLink → MergedLink → MergedLink
with_known_password previous link = record link {
  password = or_option link.password previous.password;
}

abbrev pub put_link : Text → MergedLink → Emission → Emission
put_link id link e = record e { emitted = insert id link e.emitted }

module _ (env : Env) (has_sender : Bool) where
  abbrev pub emit_known : Text → MergedLink → MergedLink → Emission → Emission
  emit_known id previous link e =
      if merged_beq previous link
      then e
      else put_link id link (send has_sender (result_update id link) e)

  abbrev pub emit_by : Text → MergedLink → Option MergedLink → Emission → Emission
  emit_by id link none e = put_link id link (send has_sender (result id link) e)
  emit_by id link (some previous) e = emit_known id previous (with_known_password previous link) e

  -- The body of the loop over the merged links.
  pub emit_link : Emission → MergedLink → Emission
  unfolding lookup insert canonical_url_key merged_beq
  emit_link e link =
      let id = canonical_url_key env link.url in emit_by id link (lookup id e.emitted) e

  unfoldable pub emit_links : Emission → List MergedLink → Emission
  unfolding emit_link
  emit_links e [] = e
  emit_links e (link ∷ links) = emit_links (emit_link e link) links
