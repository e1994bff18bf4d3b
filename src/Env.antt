-- ===== src/Env.antt =====
-- What the program calls and does not implement: the `url`, `percent-encoding`, `regex`, `scraper` and `sha2`
-- crates, and Unicode's lower-case table behind `str::to_lowercase`.
use panshou.Prelude.{ℕ, Bool, Option, List, [], ◌∷◌, ◌++◌, ltb, if◌then◌else◌}
use panshou.Text.{Text, ascii_lower}

-- One match of a regular expression: where it starts, and its text.
pub record Found : Type 0 where
  pub start : ℕ
  pub matched : Text

pub record Env : Type 1 where
  -- Unicode's lower case of a character that is not ASCII, between what stands before and after it
  -- (the final sigma depends on them).
  pub unicode_lower : Text → ℕ → Text → Text
  pub Url : Type 0
  pub parse_url : Text → Option Url
  pub scheme : Url → Text
  pub host_str : Url → Option Text
  pub port : Url → Option ℕ
  pub path : Url → Text
  pub path_segments : Url → Option (List Text)
  pub fragment : Url → Option Text
  pub username : Url → Text
  pub password : Url → Option Text
  pub query : Url → Option Text
  pub query_pairs : Url → List (Text × Text)
  -- The setters whose result the program ignores leave the URL as it is on an error.
  pub set_scheme : Text → Url → Url
  pub set_host : Text → Url → Option Url
  pub set_port : Option ℕ → Url → Url
  pub set_path : Text → Url → Url
  pub set_fragment : Option Text → Url → Url
  pub clear_query : Url → Url
  -- `query_pairs_mut().extend_pairs(..)`, and `append_pair` with one pair.
  pub extend_pairs : List (Text × Text) → Url → Url
  pub url_text : Url → Text
  -- `percent_decode_str(..).decode_utf8_lossy()`.
  pub percent_decode : Text → Text
  -- The attribute `data-post` of every element that `.tgme_widget_message[data-post]` selects.
  pub data_posts : Text → List Text
  -- How an HTTP status is printed, with its canonical reason.
  pub status_text : ℕ → Text
  pub Regex : Type 0
  pub regex : Text → Regex
  pub is_match : Regex → Text → Bool
  pub find_iter : Regex → Text → List Found
  -- The first group of every match that has one.
  pub captures_iter : Regex → Text → List Text
  -- The lower-case hexadecimal digest of the bytes.
  pub sha256_hex : Text → Text

-- `str::to_lowercase`, left to right.
unfoldable pub lower_from : Env → Text → Text → Text
lower_from env before [] = []
lower_from env before (c ∷ s) =
    (if ltb c 0x80 then ascii_lower c ∷ [] else env.unicode_lower before c s)
    ++ lower_from env (before ++ c ∷ []) s

unfoldable pub to_lowercase : Env → Text → Text
unfolding lower_from
to_lowercase env s = lower_from env [] s
