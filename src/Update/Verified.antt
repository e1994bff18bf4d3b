-- ===== src/Update/Verified.antt =====
-- install in src/update/mod.rs: what is checked of a program before it is installed.
use panshou.Prelude.{◌*◌, ◌≡◌, refl, sym, subst, true, some, List, [], ◌∷◌, arith}
use panshou.Prelude.Results.{ok, >>=-eq_ok, require-eq_ok, ok_or-eq_ok, mapped-eq_ok, passed}
use panshou.Text.{Text, text, text_beq_iff, to_ascii_lowercase}
use panshou.Env.{Env}
use panshou.Core.Link.Titles.{lines_of}
use panshou.Http.Body.{Bytes}
use panshou.Update.{
  not_needed, no_parent, checksum_download, program_download, not_run, check_failed, incompatible,
  not_utf8, no_reported, wrong_reported, io, Semver, max_archive, Service, download, UpdatePlan,
  parse_version,
}
use panshou.Update.Checksum.{checksums_for, compare, verify_checksum, split_whitespace}
use panshou.Update.Archive.{Archives, binary_of}
use panshou.Update.Archive.Extract.{Extracts, binary_of-Extracts}
use panshou.Update.Install.{
  Program, Output, Machine, Steps, step, extract_binary, nothing_refused, verify_binary,
  staged_program, validate_install_location, has_parent, last_of,
}

-- The digest that is listed, once, for the file is that of the bytes.
abbrev pub IsListed : Env → Bytes → (sums name : Text) → Type 0
IsListed env bytes sums name =
    (checksum : Text) × (checksums_for name (lines_of sums) ≡ checksum ∷ [])
    × (to_ascii_lowercase checksum ≡ to_ascii_lowercase (env.sha256_hex bytes))

compare-lem :
    (env : Env) (bytes : Bytes) (name : Text) (checksums : List Text) {found : List Text}
    {u : Unit {0}}
    → found ≡ checksums
    → compare env bytes name checksums ≡ ok u
    → (checksum : Text) × (found ≡ checksum ∷ [])
      × (to_ascii_lowercase checksum ≡ to_ascii_lowercase (env.sha256_hex bytes))
unfolding to_ascii_lowercase
compare-lem env bytes name [] e h = cc
compare-lem env bytes name (c ∷ []) e h = (
  c,
  e,
  ground (arith, text_beq_iff (to_ascii_lowercase c) (to_ascii_lowercase (env.sha256_hex bytes))),
)
compare-lem env bytes name (c ∷ d ∷ cs) e h = cc

verify_checksum-IsListed :
    (env : Env) (bytes : Bytes) (sums name : Text) {u : Unit {0}}
    → verify_checksum env bytes sums name ≡ ok u
    → IsListed env bytes sums name
unfolding verify_checksum
verify_checksum-IsListed env bytes sums name h =
    compare-lem env bytes name (checksums_for name (lines_of sums)) refl h

extract_binary-Extracts :
    (archives : Archives) (steps : Steps) (bytes : Bytes) (asset : Text) {program : Program}
    → extract_binary archives steps bytes asset ≡ ok program
    → Extracts archives bytes asset program.content × (program.mode ≡ 493)
unfolding binary_of
extract_binary-Extracts archives steps bytes asset {program} h =
    let (contents, found, h1) = >>=-eq_ok (binary_of archives bytes asset) _ h in
    let (_, _, h2) = >>=-eq_ok (step steps.open_staged) _ h1 in
    let (_, _, h3) = >>=-eq_ok (step steps.write_staged) _ h2 in
    let (_, _, h4) = >>=-eq_ok (step steps.permit_staged) _ h3 in
    let (_, _, h5) = >>=-eq_ok (step steps.sync_staged) _ h4 in
    let same : record { content = contents; mode = 493 } ≡ program = ground arith in
    subst (λ p. Extracts archives bytes asset p.content × (p.mode ≡ 493)) same
      ((binary_of-Extracts archives bytes asset contents).0 found, refl)

module _ (semver : Semver) (env : Env) (service : Service) (archives : Archives)
    (machine : Machine) where
  open semver use {Version, same}

  -- A program that reports the version and accepts the local data.
  abbrev pub Reports : Program → Version → (config_dir : Text) → Type 0
  Reports program version config_dir =
      ((output : Output) × (printed reported : Text) × (found : Version) × (machine.run program
            (text "--version" ∷ [])
          ≡ ok output)
        × (output.success ≡ true)
        × (machine.from_utf8 output.stdout ≡ some printed)
        × (last_of (split_whitespace printed) ≡ some reported)
        × (parse_version semver reported ≡ ok found)
        × (same found version ≡ true))
      × ((preflight : Output) × (machine.run program (text "__update-preflight" ∷ config_dir ∷ [])
            ≡ ok preflight)
          × (preflight.success ≡ true))

  verify_binary-Reports :
      (program : Program) (version : Version) (config_dir : Text) {u : Unit {0}}
      → verify_binary semver env service archives machine program version config_dir ≡ ok u
      → Reports program version config_dir
  unfolding verify_binary
  verify_binary-Reports program version config_dir h =
      let run = machine.run program in
      let (output, ran, h1) = mapped-eq_ok (λ e. not_run) (run (text "--version" ∷ [])) _ h in
      let (succeeded, h2) = require-eq_ok output.success check_failed _ h1 in
      let (printed, decoded, h3) = ok_or-eq_ok (machine.from_utf8 output.stdout) not_utf8 _ h2 in
      let (reported, found, h4) =
        ok_or-eq_ok (last_of (split_whitespace printed)) no_reported _ h3 in
      let (v, parsed, h5) = >>=-eq_ok (parse_version semver reported) _ h4 in
      let (matches, h6) = require-eq_ok (same v version) wrong_reported _ h5 in
      let (preflight, checked, h7) =
        mapped-eq_ok io (run (text "__update-preflight" ∷ config_dir ∷ [])) _ h6 in
      (
        (output, printed, reported, v, ran, succeeded, decoded, found, parsed, matches),
        (
          preflight,
          checked,
          passed preflight.success (incompatible (machine.from_utf8_lossy preflight.stderr)) h7,
        ),
      )

  -- What comes from the plan's archive and was checked.
  abbrev pub IsVerified : UpdatePlan semver → (config_dir : Text) → Program → Type 0
  IsVerified plan config_dir program =
      ((archive sums : Bytes) × (listed : Text) × (download service plan.archive_url max_archive
          ≡ ok archive)
        × (download service plan.checksum_url (1024 * 1024) ≡ ok sums)
        × (machine.from_utf8 sums ≡ some listed)
        × IsListed env archive listed plan.asset_name
        × Extracts archives archive plan.asset_name program.content)
      × (program.mode ≡ 493)
      × Reports program plan.target config_dir

  pub staged_program-IsVerified :
      (steps : Steps) (plan : UpdatePlan semver) (config_dir path : Text) (staged : Program)
      → staged_program semver env service archives machine steps plan config_dir path ≡ ok staged
      → (plan.needs_install ≡ true) × IsVerified plan config_dir staged
  unfolding staged_program
  staged_program-IsVerified steps plan config_dir path staged h =
      let (needed, h1) = require-eq_ok plan.needs_install not_needed _ h in
      let (_, _, h2) = >>=-eq_ok (validate_install_location machine path) _ h1 in
      let (_, h3) = require-eq_ok (has_parent path) no_parent _ h2 in
      let (_, _, h4) = >>=-eq_ok (step steps.create_staging) _ h3 in
      let (sums, got_sums, h5) =
        mapped-eq_ok checksum_download (download service plan.checksum_url (1024 * 1024)) _ h4 in
      let (archive, got_archive, h6) =
        mapped-eq_ok program_download (download service plan.archive_url max_archive) _ h5 in
      let (listed, decoded, h7) = ok_or-eq_ok (machine.from_utf8 sums) not_utf8 _ h6 in
      let (_, verified, h8) = >>=-eq_ok (verify_checksum env archive listed plan.asset_name) _ h7 in
      let (program, extracted, h9) =
        >>=-eq_ok (extract_binary archives steps archive plan.asset_name) _ h8 in
      let (_, run, h10) =
        >>=-eq_ok (verify_binary semver env service archives machine program plan.target config_dir)
          _ h9 in
      let same : program ≡ staged = ground arith in
      (
        needed,
        subst (IsVerified plan config_dir) same (
          (
            archive,
            sums,
            listed,
            got_archive,
            got_sums,
            decoded,
            verify_checksum-IsListed env archive listed plan.asset_name verified,
            (extract_binary-Extracts archives steps archive plan.asset_name extracted).0,
          ),
          (extract_binary-Extracts archives steps archive plan.asset_name extracted).1,
          verify_binary-Reports program plan.target config_dir run,
        ),
      )

  -- The other way: what meets the checks passes them.
  IsListed-verify_checksum :
      (bytes : Bytes) (sums name : Text)
      → IsListed env bytes sums name
      → verify_checksum env bytes sums name ≡ ok tt
  unfolding verify_checksum to_ascii_lowercase
  IsListed-verify_checksum bytes sums name (checksum, only, same) = rw only (
      rw
        ((text_beq_iff (to_ascii_lowercase checksum) (to_ascii_lowercase (env.sha256_hex bytes))).1
          same)
        refl)

  Reports-verify_binary :
      (program : Program) (version : Version) (config_dir : Text)
      → Reports program version config_dir
      → verify_binary semver env service archives machine program version config_dir ≡ ok tt
  unfolding verify_binary
  Reports-verify_binary program version config_dir
        (
          (output, printed, reported, v, ran, succeeded, decoded, found, parsed, matches),
          (preflight, checked, agreed),
        ) =
      rw ran (
        rw succeeded (rw decoded (rw found (rw parsed (rw matches (rw checked (rw agreed refl)))))))

  pub IsVerified-staged_program :
      (plan : UpdatePlan semver) (config_dir path : Text) (program : Program)
      → plan.needs_install ≡ true
      → validate_install_location machine path ≡ ok tt
      → has_parent path ≡ true
      → IsVerified plan config_dir program
      → staged_program semver env service archives machine nothing_refused plan config_dir path
        ≡ ok program
  unfolding staged_program binary_of
  IsVerified-staged_program plan config_dir path program needed allowed parent
        (
          (archive, sums, listed, got_archive, got_sums, decoded, is_listed, extracts),
          mode,
          reports,
        ) =
      let content =
        (binary_of-Extracts archives archive plan.asset_name program.content).1 extracts in
      let same : record { content = program.content; mode = 493 } ≡ program =
        (λ i. record program { mode = sym mode i }) in
      rw needed (
        rw allowed (
          rw parent (
            rw got_sums (
              rw got_archive (
                rw decoded (
                  rw (IsListed-verify_checksum archive listed plan.asset_name is_listed) (
                    rw content (
                      rw same (
                        rw (Reports-verify_binary program plan.target config_dir reports)
                          refl)))))))))
