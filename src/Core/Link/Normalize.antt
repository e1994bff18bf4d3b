-- ===== src/Core/Link/Normalize.antt =====
-- `normalize_url` and `canonical_url_key` of src/core/link.rs.
use panshou.Prelude.{
  ℕ, Bool, false, not, ◌&&◌, ◌||◌, Option, none, some, [], ◌∷◌, if◌then◌else◌, ◌==◌, any, retain,
  is_empty, is_some, suc, zero, length, drop,
}
use panshou.Text.{
  Text, text, text_beq, trim, trim_matches, trim_end_matches, to_ascii_lowercase, starts_with,
}
use panshou.Env.{Env}
use panshou.Core.Cloud.{mobile, cloud_beq}
use panshou.Core.Link.Detect.{detect_cloud_type}

-- The punctuation that `trim_matches` takes off both ends.
abbrev edge_marks : Text
edge_marks = text "，。；;,)）]】>\"'"

abbrev is_edge_mark : ℕ → Bool
is_edge_mark c = any (λ d. c == d) edge_marks

-- `replace("&amp;", "&")`, on as many rounds as the text is long: each round drops a character.
replace_amp : ℕ → Text → Text
replace_amp zero s = s
replace_amp (suc n) [] = []
replace_amp (suc n) (c ∷ s) =
    let found = starts_with (text "&amp;") (c ∷ s) in
    (if found then b'&' else c) ∷ replace_amp n (if found then drop 4 s else s)

abbrev pub is_slash : ℕ → Bool
is_slash c = c == b'/'

abbrev has_link_scheme : Text → Bool
has_link_scheme s = starts_with (text "magnet:") s || starts_with (text "ed2k:") s

abbrev port_is : Option ℕ → ℕ → Bool
port_is none n = false
port_is (some m) n = m == n

abbrev eq_ignore_ascii_case : Text → Text → Bool
eq_ignore_ascii_case s t = text_beq (to_ascii_lowercase s) (to_ascii_lowercase t)

module _ (env : Env) where
  -- `if let Some(host)`, with the result of `set_host` ignored.
  abbrev lower_host : env.Url → env.Url
  lower_host url = elim (env.host_str url) [
    | none ↦ url
    | some host ↦ elim (env.set_host (to_ascii_lowercase host) url) [ none ↦ url | some u ↦ u ]
  ]

  abbrev drop_default_port : env.Url → env.Url
  drop_default_port url =
      if (text_beq (env.scheme url) (text "http") && port_is (env.port url) 80)
        || (text_beq (env.scheme url) (text "https") && port_is (env.port url) 443)
      then env.set_port none url
      else url

  abbrev drop_fragment : env.Url → env.Url
  drop_fragment url =
      if is_some (env.fragment url)
        && not (cloud_beq (detect_cloud_type env (env.url_text url)) mobile)
      then env.set_fragment none url
      else url

  unfoldable pub normalize_url : Text → Text
  unfolding trim to_ascii_lowercase replace_amp
  normalize_url raw_url =
      let trimmed = trim_matches is_edge_mark (trim raw_url) in
      let html_decoded = replace_amp (length trimmed) trimmed in
      let decoded = env.percent_decode html_decoded in
      if has_link_scheme html_decoded then html_decoded else elim (env.parse_url decoded) [
        | none ↦ decoded
        | some parsed ↦
            let schemed = env.set_scheme (to_ascii_lowercase (env.scheme parsed)) parsed in
            trim_end_matches is_slash
              (env.url_text (drop_fragment (drop_default_port (lower_host schemed))))
      ]

  -- The query pairs that are no extraction code.
  abbrev is_kept_pair : Text × Text → Bool
  is_kept_pair (key, value) =
      not (eq_ignore_ascii_case key (text "pwd"))
      && not (eq_ignore_ascii_case key (text "password"))

  unfoldable pub canonical_url_key : Text → Text
  unfolding normalize_url to_ascii_lowercase
  canonical_url_key raw_url =
      let normalized = normalize_url raw_url in
      if has_link_scheme normalized
      then to_ascii_lowercase normalized
      else elim (env.parse_url normalized) [
        | none ↦ to_ascii_lowercase normalized
        | some parsed ↦
            let kept = retain is_kept_pair (env.query_pairs parsed) in
            let cleared = env.clear_query parsed in
            trim_end_matches is_slash
              (env.url_text (if is_empty kept then cleared else env.extend_pairs kept cleared))
      ]
