-- ===== src/Core/Filter.antt =====
-- src/core/filter.rs: words that a title must or must not hold, and the cloud types that are asked
-- for.
pub mod Laws
use panshou.Prelude.{
  Bool, true, false, not, ◌&&◌, ◌||◌, Option, none, some, List, [], ◌∷◌, map, if◌then◌else◌,
  is_empty, any, retain, filter_map, unwrap_or,
}
use panshou.Text.{Text, contains}
use panshou.Env.{Env, to_lowercase}
use panshou.Core.Cloud.{CloudType, cloud_beq}
use panshou.Core.Model.{Link, SearchResult}

-- The set of cloud types is a list; only membership and emptiness are asked of it.
pub record FilterOptions : Type 0 where
  pub include : List Text
  pub exclude : List Text
  pub cloud_types : List CloudType

-- `words.iter().any(|word| title.contains(word))`.
abbrev pub has_any : List Text → Text → Bool
has_any words title = any (λ w. contains w title) words

abbrev pub title_rejected : List Text → List Text → Text → Bool
title_rejected includes excludes title =
    (not (is_empty includes) && not (has_any includes title)) || has_any excludes title

abbrev pub link_title_accepted : List Text → List Text → Text → Bool
link_title_accepted includes excludes title =
    (is_empty includes || has_any includes title) && not (has_any excludes title)

abbrev pub in_types : List CloudType → CloudType → Bool
in_types types c = any (λ t. cloud_beq t c) types

-- The title of a link: its own, or that of its result.
abbrev pub link_title : Text → Link → Text
link_title title link = unwrap_or link.work_title title

-- The two `retain` calls.
abbrev pub kept_by_title : Env → List Text → List Text → SearchResult → List Link
kept_by_title env includes excludes result =
    retain
      (λ link.
        link_title_accepted includes excludes (to_lowercase env (link_title result.title link)))
      result.links

abbrev pub kept_by_type : List CloudType → List Link → List Link
kept_by_type types links =
    if not (is_empty types) then retain (λ link. in_types types link.cloud_type) links else links

-- The closure of `filter_map`.
pub filter_one : Env → List Text → List Text → FilterOptions → SearchResult → Option SearchResult
filter_one env includes excludes options result =
    let links = kept_by_type options.cloud_types (kept_by_title env includes excludes result) in
    if title_rejected includes excludes (to_lowercase env result.title)
    then none
    else if is_empty links
    then none
    else some (record result { links = links })

unfoldable pub filter_results : Env → List SearchResult → FilterOptions → List SearchResult
unfolding filter_one
filter_results env results options =
    let includes = map (to_lowercase env) options.include in
    let excludes = map (to_lowercase env) options.exclude in
    filter_map (filter_one env includes excludes options) results
