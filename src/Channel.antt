-- ===== src/Channel.antt =====
-- src/channel/mod.rs: the saved list of Telegram channels, its changes and its errors.
pub mod Names
pub mod Page
pub mod Store
use panshou.Prelude.{
  ℕ, suc, zero, ◌+◌, ◌/◌, ◌%◌, Bool, true, List, [], ◌∷◌, ◌++◌, ltb, if◌then◌else◌, retain, map,
}
use panshou.Prelude.Results.{Result}
use panshou.Text.{Text, text}

abbrev pub max_enabled_channels : ℕ
max_enabled_channels = 128

pub record Channel : Type 0 where
  pub name : Text
  pub enabled : Bool

pub record ChannelList : Type 0 where
  pub version : ℕ
  pub channels : List Channel

abbrev pub default_list : ChannelList
default_list = record {
  version = 1;
  channels = record { name = text "tgsearchers7"; enabled = true } ∷ [];
}

abbrev pub name_of : Channel → Text
name_of c = c.name

abbrev pub is_enabled : Channel → Bool
is_enabled c = c.enabled

abbrev pub enabled_names : List Channel → List Text
enabled_names channels = map name_of (retain is_enabled channels)

pub record ChangeSummary : Type 0 where
  pub added : ℕ
  pub existing : ℕ
  pub changed : ℕ
  pub removed : ℕ
  pub not_found : List Text
  pub changed_names : List Text

abbrev pub no_change : ChangeSummary
no_change = record {
  added = 0;
  existing = 0;
  changed = 0;
  removed = 0;
  not_found = [];
  changed_names = [];
}

pub data ChannelError : Type 0 where
  io parse serialize invalid_name not_found import_failed : Text → ChannelError
  bad_version limit : ℕ → ChannelError
  invalid_source validation_uncertain : (name reason : Text) → ChannelError
  import_line : (line : ℕ) → (reason : Text) → ChannelError

abbrev pub ChannelResult : Type 0 → Type 0
ChannelResult A = Result ChannelError A

-- A number in decimal, on as many rounds as it has units: each round takes a digit off.
abbrev decimal_from : ℕ → ℕ → Text → Text
decimal_from zero n s = s
decimal_from (suc rounds) n s =
    let rest = decimal_from rounds (n / 10) ((b'0' + n % 10) ∷ s) in
    if ltb n 10 then (b'0' + n % 10) ∷ s else rest

unfoldable pub decimal : ℕ → Text
decimal n = decimal_from (suc n) n []

-- `Display`, by thiserror's `#[error(..)]` lines.
unfoldable pub channel_message : ChannelError → Text
unfolding decimal
channel_message (io e) = text "channel file operation failed: " ++ e
channel_message (parse e) = text "invalid channels.toml: " ++ e
channel_message (serialize e) = text "cannot serialize channels.toml: " ++ e
channel_message (bad_version v) =
    text "unsupported channels.toml version "
    ++ (decimal v ++ text "; update pansou before using this file")
channel_message (invalid_name name) = text "invalid public Telegram channel: " ++ name
channel_message (invalid_source name reason) =
    text "Telegram channel `"
    ++ (name ++ (text "` is not a searchable public message source: " ++ reason))
channel_message (validation_uncertain name reason) =
    text "could not verify Telegram channel `" ++ (name ++ (text "`: " ++ reason))
channel_message (not_found name) =
    text "channel not found: " ++ (name ++ text "; add it with `pansou channel add` first")
channel_message (limit n) =
    text "enabled channel count "
    ++ (decimal n
        ++ (text " exceeds MAX_ENABLED_CHANNELS ("
            ++ (decimal max_enabled_channels ++ text "); disable or remove channels")))
channel_message (import_line line reason) =
    text "invalid channel list at line " ++ (decimal line ++ (text ": " ++ reason))
channel_message (import_failed reason) = text "channel import failed: " ++ reason
