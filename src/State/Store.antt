-- ===== src/State/Store.antt =====
-- StateStore in src/state/store.rs: the files of profiles, by path. What the operating system
-- refuses, and the JSON of a state, are arguments.
pub mod Laws
use panshou.Prelude.{
  ℕ, Bool, true, false, not, ◌&&◌, ◌||◌, Option, none, some, List, [], ◌∷◌, ◌++◌, leb, ◌==◌,
  if◌then◌else◌, is_empty, is_some, all, lookup, insert, remove,
}
use panshou.Prelude.Results.{Result, ok, err, ◌>>=◌, ◌>>◌, map_err, fail_if}
use panshou.Text.{Text, text, text_beq, text_eq}
use panshou.State.{
  Value, invalid_name, io, json, StateResult, Cipher, Codec, protect_secrets, reveal_secrets,
}

-- The `serde` of a type of states, and JSON as text.
pub record Format (A : Type 0) : Type 0 where
  pub to_value : A → Result Text Value
  pub from_value : Value → Result Text A
  pub print : Value → Result Text Text
  pub parse : Text → Result Text Value

pub record Steps : Type 0 where
  pub create_root : Option Text
  pub private_root : Option Text
  pub create_parent : Option Text
  pub private_parent : Option Text
  pub create_temporary : Option Text
  pub private_temporary : Option Text
  pub write_bytes : Option Text
  pub write_newline : Option Text
  pub sync : Option Text
  pub persist : Option Text
  pub private_file : Option Text
  pub sync_parent : Option Text
  pub read_file : Option Text
  pub remove_file : Option Text

abbrev pub Files : Type 0
Files = List (Text × Text)

abbrev pub step : Option Text → StateResult (Unit {0})
step none = ok tt
step (some e) = err (io e)

abbrev is_name_char : ℕ → Bool
is_name_char c =
    (leb b'a' c && leb c b'z')
    || (leb b'A' c && leb c b'Z')
    || (leb b'0' c && leb c b'9')
    || c == b'-'
    || c == b'_'

abbrev pub validate_name : Text → StateResult (Unit {0})
validate_name name =
    fail_if
      (is_empty name
        || text_beq name (text ".")
        || text_beq name (text "..")
        || not (all is_name_char name))
      (invalid_name name)

unfoldable pub profile_path : (root provider profile : Text) → StateResult Text
profile_path root provider profile = do
  validate_name provider
  validate_name profile
  ok (root ++ text "/" ++ provider ++ text "/" ++ profile ++ text ".json")

module _ {A : Type 0} (codec : Codec) (cipher : Option Cipher) (format : Format A) (steps : Steps)
    (root : Text) where
  -- `atomic_private_write`, up to the step that puts the new file in place of the old one.
  abbrev pub write_temporary : StateResult (Unit {0})
  write_temporary = do
    step steps.create_parent
    step steps.private_parent
    step steps.create_temporary
    step steps.private_temporary
    step steps.write_bytes
    step steps.write_newline
    step steps.sync
    step steps.persist

  unfoldable pub prepare : (provider profile : Text) → A → StateResult (Text × Text)
  unfolding profile_path protect_secrets
  prepare provider profile state = do
    path ← profile_path root provider profile
    step steps.create_root
    step steps.private_root
    value ← map_err json (format.to_value state)
    protected ← protect_secrets codec cipher none value
    bytes ← map_err json (format.print protected)
    write_temporary
    ok (path, bytes ++ b'\n' ∷ [])

  abbrev pub put : Files → StateResult (Text × Text) → Files × StateResult (Unit {0})
  put files (err e) = (files, err e)
  put files (ok (path, content)) =
      (insert path content files, step steps.private_file >> step steps.sync_parent)

  unfoldable pub save : (provider profile : Text) → A → Files → Files × StateResult (Unit {0})
  unfolding prepare insert
  save provider profile state files = put files (prepare provider profile state)

  abbrev pub read_profile : Option Text → StateResult (Option A)
  read_profile none = ok none
  read_profile (some bytes) = do
    step steps.read_file
    value ← map_err json (format.parse bytes)
    revealed ← reveal_secrets codec cipher none value
    state ← map_err json (format.from_value revealed)
    ok (some state)

  unfoldable pub load : (provider profile : Text) → Files → StateResult (Option A)
  unfolding profile_path reveal_secrets lookup
  load provider profile files =
      profile_path root provider profile >>= λ path. read_profile (lookup path files)

  abbrev pub removed : (path : Text) → Files → Option Text → Files × StateResult Bool
  removed path files (some e) = (files, err (io e))
  removed path files none = (remove path files, ok true)

  abbrev pub delete_at : Files → StateResult Text → Files × StateResult Bool
  delete_at files (err e) = (files, err e)
  delete_at files (ok path) =
      if is_some (lookup path files)
      then removed path files steps.remove_file
      else (files, ok false)

  unfoldable pub delete : (provider profile : Text) → Files → Files × StateResult Bool
  unfolding profile_path remove lookup
  delete provider profile files = delete_at files (profile_path root provider profile)
