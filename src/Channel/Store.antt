-- ===== src/Channel/Store.antt =====
-- `ChannelStore` of src/channel/mod.rs: the list of channels in a file. The file's content is the
-- state, `none` if there is no file; the `toml` crate and what the operating system refuses are
-- arguments.
pub mod Changes
pub mod Views
pub mod Saving
pub mod Calls
use panshou.Prelude.{
  ℕ, suc, ◌+◌, Bool, true, false, not, ◌&&◌, ◌||◌, Option, none, some, List, [], ◌∷◌, ◌++◌, ltb,
  ◌==◌, if◌then◌else◌, any, retain, length,
}
use panshou.Prelude.Results.{Result, ok, err, ◌>>=◌, ◌>>◌, map_err, fail_if}
use panshou.Text.{Text, text, text_beq, contains}
use panshou.Env.{Env}
use panshou.Channel.{
  max_enabled_channels, Channel, ChannelList, default_list, is_enabled, ChangeSummary, no_change,
  ChannelError, io, parse, serialize, bad_version, not_found, limit, import_failed, ChannelResult,
}
use panshou.Channel.Names.{normalize_channel, normalize_channels, parse_catalog}

-- The `toml` crate with the derived (de)serializers; a failure with its message.
pub record Toml : Type 0 where
  pub read_list : Text → Result Text ChannelList
  pub print_list : ChannelList → Result Text Text

-- The steps that the operating system may refuse, each with its error.
pub record Disk : Type 0 where
  pub create_dir : Option Text
  pub open_lock : Option Text
  pub read_file : Option Text
  pub create_temporary : Option Text
  pub write_all : Option Text
  pub persist : Option Text

abbrev pub step : Option Text → ChannelResult (Unit {0})
step none = ok tt
step (some e) = err (io e)

abbrev pub has_name : Text → List Channel → Bool
has_name name channels = any (λ c. text_beq c.name name) channels

-- `find(|c| c.name == name)`, and a write to the channel that it finds.
abbrev pub enabled_at : Text → List Channel → Option Bool
enabled_at name [] = none
enabled_at name (c ∷ cs) = if text_beq c.name name then some c.enabled else enabled_at name cs

abbrev pub set_enabled_at : Text → Bool → List Channel → List Channel
set_enabled_at name enabled [] = []
set_enabled_at name enabled (c ∷ cs) =
    if text_beq c.name name
    then record c { enabled = enabled } ∷ cs
    else c ∷ set_enabled_at name enabled cs

abbrev pub enabled_count : List Channel → ℕ
enabled_count channels = length (retain is_enabled channels)

-- A channel of the file joins the ones before it.
abbrev pub merge_channel : Option Bool → Text → Bool → List Channel → List Channel
merge_channel none name enabled channels =
    channels ++ record { name = name; enabled = enabled } ∷ []
merge_channel (some old) name enabled channels = set_enabled_at name (old || enabled) channels

abbrev pub Change : Type 0
Change = List Channel × ChangeSummary

-- The bodies of the loops of `add` and `remove`.
abbrev pub add_one : Bool → Change → Text → Change
add_one enabled (channels, s) name =
    if has_name name channels then (channels, record s { existing = suc s.existing }) else (
      channels ++ record { name = name; enabled = enabled } ∷ [],
      record s { added = suc s.added },
    )

abbrev other_name : Text → Channel → Bool
other_name name c = not (text_beq c.name name)

abbrev pub remove_one : Change → Text → Change
remove_one (channels, s) name =
    let kept = retain (other_name name) channels in
    if length channels == length kept
    then (kept, record s { not_found = s.not_found ++ name ∷ [] })
    else (kept, record s { removed = suc s.removed })

abbrev same_bool : Bool → Bool → Bool
same_bool true b = b
same_bool false b = not b

abbrev pub set_one : Bool → Change → Text → Option Bool → ChannelResult Change
set_one enabled change name none = err (not_found name)
set_one enabled (channels, s) name (some old) = ok (
    if same_bool old enabled
    then (channels, s)
    else (set_enabled_at name enabled channels, record s { changed = suc s.changed }))

-- `find(|c| c.name == name && c.enabled)`.
abbrev pub enabled_named : Text → Channel → Bool
enabled_named name c = text_beq c.name name && c.enabled

abbrev pub disable_first : Text → List Channel → List Channel
disable_first name [] = []
disable_first name (c ∷ cs) =
    if enabled_named name c then record c { enabled = false } ∷ cs else c ∷ disable_first name cs

abbrev pub disable_one : Change → Text → Change
disable_one (channels, s) name =
    if any (enabled_named name) channels
    then (
      disable_first name channels,
      record s { changed = suc s.changed; changed_names = s.changed_names ++ name ∷ [] },
    )
    else (channels, s)

abbrev pub set_each : Bool → List Channel → ChangeSummary → Change
set_each enabled [] s = ([], s)
set_each enabled (c ∷ cs) s =
    let rest =
      set_each enabled cs
        (if same_bool c.enabled enabled then s else record s { changed = suc s.changed }) in
    (record c { enabled = enabled } ∷ rest.0, rest.1)

abbrev pub each : (Change → Text → Change) → Change → List Text → Change
each one change [] = change
each one change (name ∷ names) = each one (one change name) names

abbrev pub set_all : Bool → Change → List Text → ChannelResult Change
set_all enabled change [] = ok change
set_all enabled change (name ∷ names) =
    set_one enabled change name (enabled_at name change.0) >>= λ next. set_all enabled next names

-- What a call does to the list.
abbrev pub Operation : Type 0
Operation = List Channel → ChannelResult Change

abbrev pub is_unchanged : ChangeSummary → Bool
is_unchanged s = s.added == 0 && s.changed == 0 && s.removed == 0

-- The file after a call, and what the call returns.
abbrev pub Saved : Type 0
Saved = Option Text × ChannelResult ChangeSummary

-- A call that fails, or has nothing to write, leaves the file alone.
abbrev pub saved : Option Text → ChannelResult (Option Text × ChangeSummary) → Saved
saved file (err e) = (file, err e)
saved file (ok (none, s)) = (file, ok s)
saved file (ok (some content, s)) = (some content, ok s)

module _ (env : Env) (toml : Toml) (disk : Disk) where
  abbrev pub merge_all : List Channel → List Channel → ChannelResult (List Channel)
  merge_all channels [] = ok channels
  merge_all channels (c ∷ cs) = normalize_channel env c.name >>= λ name.
      merge_all (merge_channel (enabled_at name channels) name c.enabled channels) cs

  abbrev pub accept_list : ChannelList → ChannelResult ChannelList
  accept_list list = do
    fail_if (not (list.version == 1)) (bad_version list.version)
    channels ← merge_all [] list.channels
    ok (record list { channels = channels })

  abbrev pub read_content : Option Text → ChannelResult ChannelList
  read_content none = ok default_list
  read_content (some input) = map_err parse (toml.read_list input) >>= accept_list

  unfoldable pub load : Option Text → ChannelResult ChannelList
  unfolding normalize_channel
  load file = step disk.read_file >> read_content file

  abbrev pub write_content : ChangeSummary → Text → ChannelResult (Option Text × ChangeSummary)
  write_content s content = do
    step disk.create_temporary
    step disk.write_all
    step disk.persist
    ok (some content, s)

  abbrev pub write_list : ChannelList → ChangeSummary → ChannelResult (Option Text × ChangeSummary)
  write_list list s = map_err serialize (toml.print_list list) >>= write_content s

  abbrev pub commit :
      (enforce_limit : Bool) → ChannelList → Change → ChannelResult (Option Text × ChangeSummary)
  commit enforce_limit list (channels, s) =
      let enabled = enabled_count channels in
      if is_unchanged s
      then ok (none, s)
      else fail_if (enforce_limit && ltb max_enabled_channels enabled) (limit enabled)
        >> write_list (record list { channels = channels }) s

  abbrev pub apply :
      (enforce_limit : Bool) → Operation → ChannelList → ChannelResult (Option Text × ChangeSummary)
  apply enforce_limit operation list = operation list.channels >>= commit enforce_limit list

  unfoldable pub modify : (enforce_limit : Bool) → Operation → Option Text → Saved
  unfolding load
  modify enforce_limit operation file = saved file (do
    step disk.create_dir
    step disk.open_lock
    list ← load file
    apply enforce_limit operation list)

  -- The names are read before the file is opened.
  abbrev pub with_names :
      ChannelResult (List Text)
      → (enforce_limit : Bool) → (List Text → Operation)
      → Option Text
      → Saved
  with_names (err e) enforce_limit operation file = (file, err e)
  with_names (ok found) enforce_limit operation file = modify enforce_limit (operation found) file

  unfoldable pub add : List Text → Bool → Option Text → Saved
  unfolding normalize_channels modify
  add names enabled file =
      with_names (normalize_channels env names) enabled
        (λ found channels. ok (each (add_one enabled) (channels, no_change) found)) file

  unfoldable pub remove : List Text → Option Text → Saved
  unfolding normalize_channels modify
  remove names file =
      with_names (normalize_channels env names) false
        (λ found channels. ok (each remove_one (channels, no_change) found)) file

  unfoldable pub set_enabled : List Text → Bool → Option Text → Saved
  unfolding normalize_channels modify
  set_enabled names enabled file =
      with_names (normalize_channels env names) enabled
        (λ found channels. set_all enabled (channels, no_change) found) file

  unfoldable pub disable_existing : List Text → Option Text → Saved
  unfolding normalize_channels modify
  disable_existing names file =
      with_names (normalize_channels env names) false
        (λ found channels. ok (each disable_one (channels, no_change) found)) file

  unfoldable pub set_all_enabled : Bool → Option Text → Saved
  unfolding modify
  set_all_enabled enabled file =
      modify enabled (λ channels. ok (set_each enabled channels no_change)) file

  abbrev pub import_parsed : ChannelResult (List Text) → Bool → Option Text → Saved
  import_parsed (err e) enabled file = (file, err e)
  import_parsed (ok names) enabled file = add names enabled file

  unfoldable pub import_text : Text → Bool → Option Text → Saved
  unfolding parse_catalog add
  import_text input enabled file = import_parsed (parse_catalog env input) enabled file

  -- The bytes of a list as text, `none` if they are not UTF-8; or why they could not be read.
  abbrev pub import_bytes : Result Text (Option Text) → Bool → Option Text → Saved
  import_bytes (err reason) enabled file = (file, err (import_failed reason))
  import_bytes (ok none) enabled file = (file, err (import_failed (text "list must be UTF-8 text")))
  import_bytes (ok (some input)) enabled file = import_text input enabled file

  -- `fetched` is what the request to the URL comes to, `local` the file of that name.
  unfoldable pub import_source :
      (fetched : Result Text (Option Text))
      → (local : ChannelResult (Option Text)) → (source : Text) → Bool
      → Option Text
      → Saved
  unfolding import_text
  import_source fetched local source enabled file =
      if contains (text "://") source
      then elim (env.parse_url source) [
        | none ↦ (file, err (import_failed (text "invalid URL")))
        | some url ↦
            if text_beq (env.scheme url) (text "http") || text_beq (env.scheme url) (text "https")
            then import_bytes fetched enabled file
            else (file, err (import_failed (text "only HTTP(S) URLs are supported")))
      ]
      else elim local [ err e ↦ (file, err e) | ok bytes ↦ import_bytes (ok bytes) enabled file ]
