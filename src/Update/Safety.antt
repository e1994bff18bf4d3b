-- ===== src/Update/Safety.antt =====
-- install in src/update/mod.rs: what a failed and a finished installation leave behind.
use panshou.Prelude.{
  ℕ, ◌≡◌, refl, true, false, ◌⊎◌, inl, inr, Option, none, some, [], ◌∷◌, ◌++◌, length,
  if◌then◌else◌,
}
use panshou.Prelude.Results.{Result, ok, err}
use panshou.Text.{Text, text}
use panshou.Env.{Env}
use panshou.Core.Link.Titles.{lines_of}
use panshou.Update.{Semver, UpdateResult, Service, UpdatePlan}
use panshou.Update.Archive.{Archives}
use panshou.Update.Install.{
  Program, Installation, Output, Machine, Steps, InstallOutcome, installed, migration_failed,
  after_replacing, renamed, finished, with_backup, replace_binary, back_up, nothing_refused,
  finish_install, staged_program, Outcome, validate_install_location, has_parent, with_staged,
  install_at, install,
}
use panshou.Update.Verified.{IsVerified, staged_program-IsVerified, IsVerified-staged_program}

module _ (semver : Semver) (env : Env) (service : Service) (archives : Archives)
    (machine : Machine) where
  open semver use {Version}

  abbrev pub backup_of : InstallOutcome semver → ℕ
  backup_of (installed version backup notices) = backup
  backup_of (migration_failed version backup reason) = backup

  -- A failure leaves the program, and at most a backup more; otherwise the backup is the old program
  -- and the new one is verified.
  abbrev pub IsSafe :
      UpdatePlan semver
      → (config_dir : Text) → Installation
      → Outcome semver env service archives machine
      → Type 0
  IsSafe plan config_dir s (t, err e) =
      (t.program ≡ s.program)
      × ((t.backups ≡ s.backups) ⊎ (t.backups ≡ s.backups ++ s.program ∷ []))
  IsSafe plan config_dir s (t, ok outcome) =
      (t.backups ≡ s.backups ++ s.program ∷ [])
      × (backup_of outcome ≡ length s.backups)
      × (plan.needs_install ≡ true)
      × IsVerified semver env service archives machine plan config_dir t.program

  backup_of-finished :
      (version : Version) (backup : ℕ) (r : Result Text Output)
      → backup_of (finished semver env service archives machine version backup r) ≡ backup
  backup_of-finished version backup (err e) = refl
  backup_of-finished version backup (ok output) =
      elim output.success
        as (λ b.
          backup_of (
            if b
            then installed version backup (lines_of (machine.from_utf8_lossy output.stdout))
            else migration_failed version backup (machine.from_utf8_lossy output.stderr))
          ≡ backup) [ true ↦ refl | false ↦ refl ]

  backup_of-finish_install :
      (program : Program) (config_dir : Text) (version : Version) (backup : ℕ)
      → backup_of
          (finish_install semver env service archives machine program config_dir version backup)
        ≡ backup
  unfolding finish_install
  backup_of-finish_install program config_dir version backup =
      backup_of-finished version backup
        (machine.run program (text "__update-finish" ∷ config_dir ∷ []))

  renamed-IsSafe :
      (plan : UpdatePlan semver) (config_dir : Text) (s : Installation) (staged : Program)
      → plan.needs_install ≡ true
      → IsVerified semver env service archives machine plan config_dir staged
      → (refused : Option Text)
      → IsSafe plan config_dir s (
          after_replacing semver env service archives machine plan config_dir staged
            (renamed staged s refused))
  unfolding finish_install
  renamed-IsSafe plan config_dir s staged needed verified (some e) = (refl, inr refl)
  renamed-IsSafe plan config_dir s staged needed verified none = (
    refl,
    backup_of-finish_install staged config_dir plan.target (length s.backups),
    needed,
    verified,
  )

  replaced-IsSafe :
      (steps : Steps) (plan : UpdatePlan semver) (config_dir : Text) (s : Installation)
      (staged : Program)
      → plan.needs_install ≡ true
      → IsVerified semver env service archives machine plan config_dir staged
      → (r : UpdateResult (Unit {0}))
      → IsSafe plan config_dir s (
          after_replacing semver env service archives machine plan config_dir staged
            (with_backup steps staged s r))
  unfolding finish_install
  replaced-IsSafe steps plan config_dir s staged needed verified (err e) = (refl, inl refl)
  replaced-IsSafe steps plan config_dir s staged needed verified (ok u) =
      renamed-IsSafe plan config_dir s staged needed verified steps.rename

  with_staged-IsSafe :
      (steps : Steps) (plan : UpdatePlan semver) (config_dir path : Text) (s : Installation)
      (r : UpdateResult Program)
      → staged_program semver env service archives machine steps plan config_dir path ≡ r
      → IsSafe plan config_dir s
          (with_staged semver env service archives machine steps plan config_dir path s r)
  unfolding replace_binary finish_install
  with_staged-IsSafe steps plan config_dir path s (err e) h = (refl, inl refl)
  with_staged-IsSafe steps plan config_dir path s (ok staged) h =
      let (needed, verified) =
        staged_program-IsVerified semver env service archives machine steps plan config_dir path
          staged h in
      replaced-IsSafe steps plan config_dir s staged needed verified (back_up steps path)

  -- An installation that fails leaves the program as it was, and the backups too but for at most one
  -- more, of that program. One that succeeds, or whose migration then fails, was needed, keeps the old
  -- program as the last backup and names it, and the new program is executable, holds what the
  -- archive of the plan holds, whose digest the plan's checksums list for it, once, reported the
  -- plan's version, and accepted the local data.
  pub install-IsSafe :
      (steps : Steps) (current_exe : Result Text Text) (plan : UpdatePlan semver)
      (config_dir : Text) (s : Installation)
      → IsSafe plan config_dir s
          (install semver env service archives machine steps current_exe plan config_dir s)
  unfolding install_at install
  install-IsSafe steps (err e) plan config_dir s = (refl, inl refl)
  install-IsSafe steps (ok path) plan config_dir s =
      with_staged-IsSafe steps plan config_dir path s
        (staged_program semver env service archives machine steps plan config_dir path) refl

  -- If the operating system refuses nothing, the plan needs an installation, the place of the program
  -- is one that may be written, and a program meets the plan's checks, that program is installed, the
  -- old one is kept as the last backup, and the new one is run to finish.
  pub install_installs :
      (plan : UpdatePlan semver) (config_dir path : Text) (s : Installation) (program : Program)
      → plan.needs_install ≡ true
      → validate_install_location machine path ≡ ok tt
      → has_parent path ≡ true
      → IsVerified semver env service archives machine plan config_dir program
      → install semver env service archives machine nothing_refused (ok path) plan config_dir s ≡ (
        record { program = program; backups = s.backups ++ s.program ∷ [] },
        ok (
            finish_install semver env service archives machine program config_dir plan.target
              (length s.backups)),
      )
  unfolding install install_at replace_binary finish_install
  install_installs plan config_dir path s program needed allowed parent verified =
      rw
        (IsVerified-staged_program semver env service archives machine plan config_dir path program
          needed allowed parent verified)
        (rw parent refl)
