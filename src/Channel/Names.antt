-- ===== src/Channel/Names.antt =====
-- The names of channels in src/channel/mod.rs: their normal form, lists of them, and the catalog.
pub mod Laws
pub mod Lists
pub mod Catalog
use panshou.Prelude.{
  ℕ, suc, ◌+◌, Bool, true, false, not, ◌&&◌, ◌||◌, Option, none, some, List, [], ◌∷◌, ◌++◌, map,
  ltb, leb, ◌==◌, if◌then◌else◌, is_empty, is_some, all, any, length, drop, unwrap_or,
}
use panshou.Prelude.Results.{Result, ok, err, ◌>>=◌, map_err, fail_if, ◌>>◌}
use panshou.Text.{
  Text, text, text_beq, trim, trim_start_matches, trim_end_matches, to_ascii_lowercase,
  strip_prefix, starts_with, contains, utf8_len, split,
}
use panshou.Env.{Env}
use panshou.Core.Link.Normalize.{is_slash}
use panshou.Core.Link.Titles.{lines_of}
use panshou.Channel.{
  max_enabled_channels, ChannelError, invalid_name, limit, import_line, ChannelResult,
  channel_message,
}

abbrev is_text : Option Text → Text → Bool
is_text none t = false
is_text (some s) t = text_beq s t

abbrev pub is_alphabetic : ℕ → Bool
is_alphabetic c = (leb b'a' c && leb c b'z') || (leb b'A' c && leb c b'Z')

abbrev pub is_name_char : ℕ → Bool
is_name_char c = is_alphabetic c || (leb b'0' c && leb c b'9') || c == b'_'

abbrev pub starts_alphabetic : Text → Bool
starts_alphabetic [] = false
starts_alphabetic (c ∷ s) = is_alphabetic c

abbrev is_reserved : Text → Bool
is_reserved s = text_beq s (text "joinchat") || text_beq s (text "s") || text_beq s (text "c")

-- The checks on a name; `[0]` is read only of a name that is not empty.
unfoldable pub is_name : Text → Bool
unfolding to_ascii_lowercase
is_name s =
    not (is_empty s)
    && leb (utf8_len s) 32
    && starts_alphabetic s
    && all is_name_char s
    && not (is_reserved (to_ascii_lowercase s))

-- The set `seen` holds what has been pushed.
abbrev pub is_member : Text → List Text → Bool
is_member name names = any (λ n. text_beq n name) names

abbrev pub push_name : List Text → Text → List Text
push_name result name = if is_member name result then result else result ++ name ∷ []

abbrev pub is_bom : ℕ → Bool
is_bom c = c == 0xfeff

abbrev pub at_line : ℕ → ChannelError → ChannelError
at_line line e = import_line line (channel_message e)

abbrev pub is_comment : Text → Bool
is_comment line = is_empty line || starts_with (text "#") line

module _ (env : Env) where
  abbrev is_plain_url : env.Url → Bool
  is_plain_url url =
      (text_beq (env.scheme url) (text "http") || text_beq (env.scheme url) (text "https"))
      && is_text (env.host_str url) (text "t.me")
      && is_empty (env.username url)
      && not (is_some (env.password url))
      && not (is_some (env.port url))
      && not (is_some (env.query url))
      && not (is_some (env.fragment url))

  abbrev name_in_path : List Text → Option Text
  name_in_path (name ∷ []) = some name
  name_in_path (s ∷ name ∷ []) = if text_beq s (text "s") then some name else none
  name_in_path _ = none

  abbrev name_in_url : Text → Option Text
  name_in_url input = elim (env.parse_url input) [
    | none ↦ none
    | some url ↦
        if is_plain_url url
        then name_in_path (drop 1 (split b'/' (trim_end_matches is_slash (env.path url))))
        else none
  ]

  -- The name before the checks: out of an address, or without its `@`.
  unfoldable pub raw_name : Text → Option Text
  raw_name input =
      if contains (text "://") input
      then name_in_url input
      else some (unwrap_or (strip_prefix (text "@") input) input)

  abbrev pub checked : Text → Option Text → ChannelResult Text
  checked input none = err (invalid_name input)
  checked input (some name) =
      if is_name name then ok (to_ascii_lowercase name) else err (invalid_name input)

  unfoldable pub normalize_channel : Text → ChannelResult Text
  unfolding trim raw_name is_name to_ascii_lowercase
  normalize_channel input = checked (trim input) (raw_name (trim input))

  abbrev pub normalize_from : List Text → List Text → ChannelResult (List Text)
  normalize_from result [] = ok result
  normalize_from result (name ∷ names) =
      normalize_channel name >>= λ n. normalize_from (push_name result n) names

  unfoldable pub normalize_channels : List Text → ChannelResult (List Text)
  unfolding normalize_channel
  normalize_channels names = normalize_from [] names

  unfoldable pub validate_search_channels : List Text → ChannelResult (List Text)
  unfolding normalize_channels
  validate_search_channels names = do
    found ← normalize_channels names
    fail_if (ltb max_enabled_channels (length found)) (limit (length found))
    ok found

  -- The lines from a number on.
  abbrev pub catalog_from : ℕ → List Text → List Text → ChannelResult (List Text)
  catalog_from number names [] = ok names
  catalog_from number names (raw ∷ lines) =
      let line = trim raw in
      let next = catalog_from (suc number) names lines in
      let pushed = map_err (at_line number) (normalize_channel line) >>= λ n.
      catalog_from (suc number) (names ++ n ∷ []) lines in
      if is_comment line then next else pushed

  unfoldable pub parse_catalog : Text → ChannelResult (List Text)
  unfolding normalize_channels trim
  parse_catalog input =
      catalog_from 1 [] (lines_of (trim_start_matches is_bom input)) >>= normalize_channels
