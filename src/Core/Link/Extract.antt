-- ===== src/Core/Link/Extract.antt =====
-- `extract_links` of src/core/link.rs.
pub mod Laws
use panshou.Prelude.{
  Bool, true, false, not, ◌&&◌, ◌||◌, Option, none, some, List, [], ◌∷◌, if◌then◌else◌, is_some,
  filter_map,
}
use panshou.Prelude.Keyed.{gather, no_rows}
use panshou.Text.{Text, text_eq}
use panshou.Env.{Found, Env}
use panshou.Core.Cloud.{others, cloud_beq}
use panshou.Core.Model.{Link}
use panshou.Core.Link.Patterns.{link_pattern, url_password_pattern}
use panshou.Core.Link.Detect.{detect_cloud_type}
use panshou.Core.Link.Normalize.{normalize_url, canonical_url_key}
use panshou.Core.Link.Passwords.{extract_password, extract_password_for_link}
use panshou.Core.Link.Titles.{associate_work_titles}

module _ (env : Env) where
  abbrev pub url_key : Link → Text
  url_key link = canonical_url_key env link.url

  -- A match as a link, unless its drive is unknown.
  pub found_link : Text → Found → Option Link
  unfolding normalize_url detect_cloud_type extract_password_for_link
  found_link s found =
      let url = normalize_url env found.matched in
      let cloud = detect_cloud_type env url in
      if cloud_beq cloud others
      then none
      else some (record {
        cloud_type = cloud;
        url = url;
        password = extract_password_for_link env s url [];
        datetime = none;
        work_title = none;
      })

  -- A known link and a later match with its key: a code in the URL replaces a known one.
  pub update_found : Link → Link → Link
  unfolding extract_password
  update_found old new =
      if (is_some (extract_password env [] new.url) || not (is_some old.password))
        && is_some new.password
      then record old {
        password = new.password;
        url = if env.is_match (env.regex url_password_pattern) new.url then new.url else old.url;
      }
      else old

  -- The loop over the matches.
  pub gather_links : Text → List Link
  unfolding gather found_link update_found canonical_url_key
  gather_links s =
      (gather url_key update_found no_rows
        (filter_map (found_link s) (env.find_iter (env.regex link_pattern) s))).rows

  unfoldable pub extract_links : Text → List Link
  unfolding gather_links associate_work_titles
  extract_links s = associate_work_titles env (gather_links s) s none
