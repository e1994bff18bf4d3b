-- ===== src/Tests.antt =====
-- Data for the runs of the child modules: a small model of the crates that the program calls, links,
-- and results.
pub mod Merging
pub mod Extracting
pub mod Ranking
pub mod Sources
pub mod Retrying
pub mod Checking
pub mod Searching
pub mod Channels
pub mod Bodies
pub mod Updates
pub mod States
use panshou.Prelude.{ℕ, true, false, Option, none, some, List, [], ◌∷◌, ◌++◌, ◌==◌, if◌then◌else◌}
use panshou.Text.{Text, text, strip_prefix, contains}
use panshou.Env.{Env}
use panshou.Core.Cloud.{baidu, quark}
use panshou.Core.Model.{telegram, provider, Link, SearchResult}

-- The host and the rest of what follows `https://`.
abbrev add_to_host : ℕ → Text × Text → Text × Text
add_to_host c (host, rest) = (c ∷ host, rest)

abbrev split_host : Text → Text × Text
split_host [] = ([], [])
split_host (c ∷ s) =
    let after = split_host s in if c == b'/' then ([], c ∷ s) else add_to_host c after

abbrev parse_https : Text → Option (Text × Text)
parse_https s = elim (strip_prefix (text "https://") s) [
  | none ↦ none
  | some r ↦ some (split_host r)
]

-- URLs are those with the scheme `https` and no port, query or fragment.
abbrev pub sample_env : Env
sample_env = record {
  unicode_lower = λ before c after. c ∷ [];
  Url = Text × Text;
  parse_url = parse_https;
  scheme = λ u. text "https";
  host_str = λ u. some u.0;
  port = λ u. none;
  path = λ u. u.1;
  path_segments = λ u. none;
  fragment = λ u. none;
  username = λ u. [];
  password = λ u. none;
  query = λ u. none;
  query_pairs = λ u. [];
  set_scheme = λ s u. u;
  set_host = λ h u. some (h, u.1);
  set_port = λ p u. u;
  set_path = λ p u. (u.0, p);
  set_fragment = λ f u. u;
  clear_query = λ u. u;
  extend_pairs = λ ps u. u;
  url_text = λ u. text "https://" ++ (u.0 ++ u.1);
  percent_decode = λ s. s;
  data_posts = λ s. s ∷ [];
  status_text = λ n. [];
  Regex = Text;
  regex = λ r. r;
  is_match = λ r s. contains r s;
  find_iter = λ r s. [];
  captures_iter = λ r s. [];
  sha256_hex = λ s. s;
}

abbrev pub baidu_url : Text
baidu_url = text "https://pan.baidu.com/s/1"

-- One share twice, the later time with a password and on a host in capitals.
abbrev pub first_link : Link
first_link = record {
  cloud_type = baidu;
  url = baidu_url;
  password = some (text "ab12");
  datetime = some 10;
  work_title = none;
}

abbrev second_link : Link
second_link = record first_link {
  url = text "https://PAN.baidu.com/s/1/";
  password = none;
  datetime = some 20;
}

abbrev pub quark_link : Link
quark_link = record {
  cloud_type = quark;
  url = text "https://pan.quark.cn/s/2";
  password = none;
  datetime = none;
  work_title = some (text "Alpha extra");
}

abbrev pub first_row : SearchResult
first_row = record {
  id = text "1";
  source = provider (text "zhizhen");
  datetime = some 10;
  title = text "Alpha complete";
  content = [];
  links = first_link ∷ [];
  tags = [];
  images = [];
}

abbrev pub second_row : SearchResult
second_row = record {
  id = text " ";
  source = telegram (text "ch");
  datetime = some 20;
  title = text "alpha";
  content = text "about Alpha";
  links = second_link ∷ quark_link ∷ [];
  tags = [];
  images = [];
}
