-- ===== src/Core/Merge.antt =====
-- src/core/merge.rs: merging result batches, and flattening them into links.
pub mod Results
pub mod Links
use panshou.Prelude.{
  ℕ, ◌+◌, ◌*◌, ◌/◌, Bool, true, false, not, ◌&&◌, ◌||◌, Option, none, some, List, [], ◌∷◌, ◌++◌,
  ltb, if◌then◌else◌, is_empty, length, take, unwrap_or, or_option, filter_option, filter_map,
  is_some, map, min,
}
use panshou.Prelude.Keyed.{gather, no_rows}
use panshou.Text.{Text, text, trim, contains, find, text_eq}
use panshou.Env.{Env, to_lowercase}
use panshou.Core.Cloud.{CloudType}
use panshou.Core.Model.{Source, source_text, Time, Link, SearchResult, MergedLink}
use panshou.Core.Filter.{in_types}
use panshou.Core.Link.Normalize.{canonical_url_key}

abbrev pub concat {ℓ} : {A : Type ℓ} → List (List A) → List A
concat [] = []
concat (xs ∷ xss) = xs ++ concat xss

abbrev flag : Bool → ℕ
flag b = if b then 1 else 0

pub completeness_score : SearchResult → ℕ
completeness_score r =
    flag (not (is_empty r.id)) * 10
    + flag (not (is_empty r.links)) * 5
    + length r.links
    + flag (not (is_empty r.content)) * 3
    + length r.title / 10
    + length r.tags

-- The more complete of two results; the first of equals.
abbrev pub more_complete : SearchResult → SearchResult → SearchResult
more_complete old new = if ltb (completeness_score old) (completeness_score new) then new else old

abbrev pub description_markers : List Text
description_markers = text "简介" ∷ text "描述" ∷ []

-- `filter_map(find).min().unwrap_or(len)`.
abbrev pub first_marker : List Text → Text → ℕ
first_marker [] value = length value
first_marker (m ∷ ms) value = elim (find m value) [
  | none ↦ first_marker ms value
  | some i ↦ min i (first_marker ms value)
]

trim_description : Text → Text
unfolding trim
trim_description value = trim (take (first_marker description_markers value) value)

-- `<` on `Option<DateTime>`, where `None` is the least.
abbrev pub older : Option Time → Option Time → Bool
older none none = false
older none (some b) = true
older (some a) none = false
older (some a) (some b) = ltb a b

-- A known row and a candidate with its key: the newer replaces the older, and a known password is
-- never lost.
pub update_link : MergedLink → MergedLink → MergedLink
update_link existing candidate =
    if older existing.datetime candidate.datetime
    then record candidate { password = or_option candidate.password existing.password }
    else if not (is_some existing.password) && is_some candidate.password
    then record existing { password = candidate.password }
    else existing

module _ (env : Env) where
  unfoldable pub result_key : SearchResult → Text
  unfolding trim source_text to_lowercase
  result_key r =
      if not (is_empty (trim r.id))
      then r.id
      else text "title:" ++ source_text r.source ++ text ":" ++ to_lowercase env (trim r.title)

  unfoldable pub merge_search_results : List (List SearchResult) → List SearchResult
  unfolding gather result_key completeness_score
  merge_search_results batches = (gather result_key more_complete no_rows (concat batches)).rows

  abbrev pub note_of : SearchResult → Link → Text
  note_of result link =
      unwrap_or (filter_option (λ s. not (is_empty s)) link.work_title) result.title

  -- `keyword.is_some_and(|word| !note.to_lowercase().contains(word))`, on the lower-case keyword.
  abbrev pub misses_keyword : Option Text → Text → Bool
  misses_keyword none note = false
  misses_keyword (some word) note = not (contains word (to_lowercase env note))

  abbrev pub lower_keyword : Option Text → Option Text
  lower_keyword none = none
  lower_keyword (some k) = filter_option (λ s. not (is_empty s)) (some (to_lowercase env k))

  -- The body of the inner loop up to `candidate`; `none` is a `continue`.
  pub candidate_of : Option Text → List CloudType → SearchResult → Link → Option MergedLink
  unfolding trim_description
  candidate_of keyword clouds result link =
      if not (is_empty clouds) && not (in_types clouds link.cloud_type)
      then none
      else if misses_keyword keyword (note_of result link)
      then none
      else some (record {
        cloud_type = link.cloud_type;
        url = link.url;
        password = filter_option (λ v. not (is_empty (trim v))) link.password;
        note = trim_description (note_of result link);
        datetime = or_option link.datetime result.datetime;
        source = result.source;
        images = result.images;
        check = none;
      })

  -- The candidates of the two loops, in their order.
  pub candidates : Option Text → List CloudType → List SearchResult → List MergedLink
  unfolding candidate_of
  candidates keyword clouds [] = []
  candidates keyword clouds (r ∷ rs) =
      filter_map (candidate_of keyword clouds r) r.links ++ candidates keyword clouds rs

  abbrev pub link_key : MergedLink → Text
  link_key link = canonical_url_key env link.url

  unfoldable pub merge_links : List SearchResult → Option Text → List CloudType → List MergedLink
  unfolding gather candidates update_link canonical_url_key
  merge_links results keyword clouds =
      (gather link_key update_link no_rows (candidates (lower_keyword keyword) clouds results)).rows
