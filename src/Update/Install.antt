-- ===== src/Update/Install.antt =====
-- The installation of src/update/mod.rs: what is checked before the program is replaced, the
-- replacement with its backup, and the run of the new program that ends it. What the operating
-- system refuses, and what programs answer, are arguments.
use panshou.Prelude.{
  ℕ, ◌*◌, Bool, true, false, not, ◌||◌, Option, none, some, List, [], ◌∷◌, ◌++◌, ◌==◌,
  if◌then◌else◌, is_empty, length, map,
}
use panshou.Prelude.Results.{Result, ok, err, ◌>>=◌, ◌>>◌, map_err, fail_if, ok_or}
use panshou.Text.{Text, text, contains, to_ascii_lowercase}
use panshou.Env.{Env}
use panshou.Core.Link.Titles.{lines_of}
use panshou.Http.Body.{Bytes}
use panshou.Update.{
  max_archive, Semver, not_needed, no_parent, not_utf8, not_run, check_failed, no_reported,
  wrong_reported, managed, owned, development_build, io, incompatible, checksum_download,
  program_download, UpdateResult, Service, download, UpdatePlan, parse_version,
}
use panshou.Update.Checksum.{split_whitespace, verify_checksum}
use panshou.Update.Archive.{Archives, components, binary_of}

-- A program on disk, and the backups that are kept beside the installed one.
pub record Program : Type 0 where
  pub content : Bytes
  pub mode : ℕ

pub record Installation : Type 0 where
  pub program : Program
  pub backups : List Program

pub record Output : Type 0 where
  pub success : Bool
  pub stdout : Bytes
  pub stderr : Bytes

-- What running a program with arguments comes to, which files a package manager owns, and the text of
-- bytes.
pub record Machine : Type 0 where
  pub run : Program → List Text → Result Text Output
  pub owns : (program flag path : Text) → Bool
  pub from_utf8 : Bytes → Option Text
  pub from_utf8_lossy : Bytes → Text

-- The steps that the operating system may refuse, each with its error.
pub record Steps : Type 0 where
  pub create_staging : Option Text
  pub open_staged : Option Text
  pub write_staged : Option Text
  pub permit_staged : Option Text
  pub sync_staged : Option Text
  pub create_backup : Option Text
  pub open_target : Option Text
  pub copy_target : Option Text
  pub permit_backup : Option Text
  pub sync_backup : Option Text
  pub keep_backup : Option Text
  pub rename : Option Text

abbrev pub nothing_refused : Steps
nothing_refused = record {
  create_staging = none;
  open_staged = none;
  write_staged = none;
  permit_staged = none;
  sync_staged = none;
  create_backup = none;
  open_target = none;
  copy_target = none;
  permit_backup = none;
  sync_backup = none;
  keep_backup = none;
  rename = none;
}

abbrev pub step : Option Text → UpdateResult (Unit {0})
step none = ok tt
step (some e) = err (io e)

-- A backup is named by its place among the backups.
pub data InstallOutcome (semver : Semver) : Type 0 where
  installed : semver.Version → (backup : ℕ) → (notices : List Text) → InstallOutcome semver
  migration_failed : semver.Version → (backup : ℕ) → (reason : Text) → InstallOutcome semver

-- `parent()` is none for a root and for no path at all.
abbrev is_rooted : List Text → Bool
is_rooted [] = true
is_rooted (front ∷ []) = is_empty front
is_rooted _ = false

abbrev pub has_parent : (path : Text) → Bool
has_parent path = not (is_rooted (components path))

abbrev pub markers : List (Text × Text)
markers =
    (text "/cellar/", text "Homebrew (brew upgrade)")
    ∷ (text "/scoop/", text "Scoop (scoop update)")
    ∷ (text "/chocolatey/", text "Chocolatey (choco upgrade)")
    ∷ (text "/winget/packages/", text "WinGet (winget upgrade)")
    ∷ (text "/nix/store/", text "Nix")
    ∷ (text "/snap/", text "Snap")
    ∷ []

abbrev pub owners : List (Text × Text × Text)
owners =
    (text "dpkg-query", text "--search", text "the Debian package manager")
    ∷ (text "rpm", text "-qf", text "the RPM package manager")
    ∷ []

abbrev to_slash : ℕ → ℕ
to_slash c = if c == b'\\' then b'/' else c

abbrev pub no_marker : (normalized : Text) → List (Text × Text) → UpdateResult (Unit {0})
no_marker normalized [] = ok tt
no_marker normalized ((marker, manager) ∷ more) =
    if contains marker normalized then err (managed manager) else no_marker normalized more

abbrev pub no_owner : Machine → (path : Text) → List (Text × Text × Text) → UpdateResult (Unit {0})
no_owner machine path [] = ok tt
no_owner machine path ((program, flag, manager) ∷ more) =
    if machine.owns program flag path then err (owned manager) else no_owner machine path more

unfoldable pub validate_install_location : Machine → (path : Text) → UpdateResult (Unit {0})
unfolding to_ascii_lowercase
validate_install_location machine path =
    let normalized = to_ascii_lowercase (map to_slash path) in
    no_marker normalized markers
    >> fail_if
        (contains (text "/target/debug/") normalized
          || contains (text "/target/release/") normalized)
        development_build
    >> no_owner machine path owners

abbrev pub last_of : List Text → Option Text
last_of [] = none
last_of (s ∷ []) = some s
last_of (s ∷ t ∷ more) = last_of (t ∷ more)

-- `extract_binary`: the program as it is staged.
abbrev pub extract_binary : Archives → Steps → Bytes → (asset : Text) → UpdateResult Program
unfolding binary_of
extract_binary archives steps bytes asset = do
  contents ← binary_of archives bytes asset
  step steps.open_staged
  step steps.write_staged
  step steps.permit_staged
  step steps.sync_staged
  ok (record { content = contents; mode = 493 })

-- `replace_binary`: the backup is complete before the target is replaced, in one step.
abbrev pub back_up : Steps → (path : Text) → UpdateResult (Unit {0})
back_up steps path = do
  fail_if (not (has_parent path)) no_parent
  step steps.create_backup
  step steps.open_target
  step steps.copy_target
  step steps.permit_backup
  step steps.sync_backup
  step steps.keep_backup

abbrev pub Replaced : Type 0
Replaced = Installation × UpdateResult ℕ

-- The backup is kept, whether the target can be replaced or not.
abbrev pub with_kept : Installation → Installation
with_kept s = record s { backups = s.backups ++ s.program ∷ [] }

abbrev pub renamed : Program → Installation → Option Text → Replaced
renamed staged s (some e) = (with_kept s, err (io e))
renamed staged s none = (record (with_kept s) { program = staged }, ok (length s.backups))

abbrev pub with_backup : Steps → Program → Installation → UpdateResult (Unit {0}) → Replaced
with_backup steps staged s (err e) = (s, err e)
with_backup steps staged s (ok u) = renamed staged s steps.rename

unfoldable pub replace_binary : Steps → Program → (path : Text) → Installation → Replaced
replace_binary steps staged path s = with_backup steps staged s (back_up steps path)

module _ (semver : Semver) (env : Env) (service : Service) (archives : Archives)
    (machine : Machine) where
  open semver use {Version, same}

  -- What the staged program prints for `--version`, and its check of the local data.
  unfoldable pub verify_binary :
      Program → (expected : Version) → (config_dir : Text) → UpdateResult (Unit {0})
  unfolding split_whitespace parse_version
  verify_binary binary expected config_dir = do
    output ← map_err (λ e. not_run) (machine.run binary (text "--version" ∷ []))
    fail_if (not output.success) check_failed
    printed ← ok_or (machine.from_utf8 output.stdout) not_utf8
    reported ← ok_or (last_of (split_whitespace printed)) no_reported
    version ← parse_version semver reported
    fail_if (not (same version expected)) wrong_reported
    preflight ← map_err io (machine.run binary (text "__update-preflight" ∷ config_dir ∷ []))
    fail_if (not preflight.success) (incompatible (machine.from_utf8_lossy preflight.stderr))

  abbrev pub finished : Version → (backup : ℕ) → Result Text Output → InstallOutcome semver
  finished version backup (ok output) =
      if output.success
      then installed version backup (lines_of (machine.from_utf8_lossy output.stdout))
      else migration_failed version backup (machine.from_utf8_lossy output.stderr)
  finished version backup (err e) = migration_failed version backup e

  unfoldable pub finish_install :
      Program → (config_dir : Text) → Version → (backup : ℕ) → InstallOutcome semver
  finish_install binary config_dir version backup =
      finished version backup (machine.run binary (text "__update-finish" ∷ config_dir ∷ []))

  -- `install_at` up to the replacement: the staged program.
  unfoldable pub staged_program :
      Steps → UpdatePlan semver → (config_dir path : Text) → UpdateResult Program
  unfolding validate_install_location download verify_checksum binary_of verify_binary
  staged_program steps plan config_dir path = do
    fail_if (not plan.needs_install) not_needed
    validate_install_location machine path
    fail_if (not (has_parent path)) no_parent
    step steps.create_staging
    sums ← map_err checksum_download (download service plan.checksum_url (1024 * 1024))
    archive ← map_err program_download (download service plan.archive_url max_archive)
    listed ← ok_or (machine.from_utf8 sums) not_utf8
    verify_checksum env archive listed plan.asset_name
    staged ← extract_binary archives steps archive plan.asset_name
    verify_binary staged plan.target config_dir
    ok staged

  abbrev pub Outcome : Type 0
  Outcome = Installation × UpdateResult (InstallOutcome semver)

  abbrev pub after_replacing :
      UpdatePlan semver → (config_dir : Text) → Program → Replaced → Outcome
  unfolding finish_install
  after_replacing plan config_dir staged (s, err e) = (s, err e)
  after_replacing plan config_dir staged (s, ok backup) =
      (s, ok (finish_install staged config_dir plan.target backup))

  abbrev pub with_staged :
      Steps
      → UpdatePlan semver
      → (config_dir path : Text) → Installation
      → UpdateResult Program
      → Outcome
  unfolding replace_binary finish_install
  with_staged steps plan config_dir path s (err e) = (s, err e)
  with_staged steps plan config_dir path s (ok staged) =
      after_replacing plan config_dir staged (replace_binary steps staged path s)

  unfoldable pub install_at :
      Steps → UpdatePlan semver → (config_dir path : Text) → Installation → Outcome
  unfolding staged_program replace_binary finish_install
  install_at steps plan config_dir path s =
      with_staged steps plan config_dir path s (staged_program steps plan config_dir path)

  -- `install`: the target is the running program.
  unfoldable pub install :
      Steps
      → (current_exe : Result Text Text) → UpdatePlan semver
      → (config_dir : Text) → Installation
      → Outcome
  unfolding install_at
  install steps (err e) plan config_dir s = (s, err (io e))
  install steps (ok path) plan config_dir s = install_at steps plan config_dir path s
