-- ===== src/Tests/Updates.antt =====
-- A release, its archive and checksums, and the installation of its program.
use panshou.Prelude.{
  ℕ, ◌≡◌, refl, ◌↔◌, true, false, Option, none, some, List, [], ◌∷◌, ltb, ◌==◌, if◌then◌else◌,
  retain,
}
use panshou.Prelude.Results.{Result, ok, err}
use panshou.Text.{Text, text, text_beq, is_whitespace, to_ascii_lowercase}
use panshou.Http.Body.{chunk, Response}
use panshou.Update.{Asset, Release, Semver, Service, UpdatePlan, check}
use panshou.Update.Plan.{IsPlan, check-IsPlan}
use panshou.Update.Checksum.{verify_checksum}
use panshou.Update.Sums.{SumLine, print_sums, is_named, verify_checksum-print_sums}
use panshou.Update.Archive.{TarEntry, Archives, binary_of}
use panshou.Update.Archive.Extract.{Extracts, binary_of-Extracts}
use panshou.Update.Install.{
  Program, Installation, Machine, nothing_refused, validate_install_location, staged_program,
  finish_install, install,
}
use panshou.Update.Verified.{IsVerified, staged_program-IsVerified}
use panshou.Update.Safety.{IsSafe, install-IsSafe, install_installs}
use panshou.Tests.{sample_env}

-- Versions of one digit.
abbrev one_digit : Text → Option ℕ
one_digit (c ∷ []) = some c
one_digit _ = none

abbrev sample_semver : Semver
sample_semver = record {
  Version = ℕ;
  parse = one_digit;
  same = λ v w. v == w;
  newer = λ v w. ltb w v;
  is_pre = λ v. false;
  display = λ v. v ∷ [];
}

abbrev asset : Text → Text → Asset
asset name url = record { name = name; browser_download_url = url }

abbrev release : Release
release = record {
  tag_name = text "v3";
  body = none;
  prerelease = false;
  draft = false;
  assets =
      asset (text "pansou-linux-x86_64.tar.gz") (text "https://r/a")
      ∷ asset (text "SHA256SUMS") (text "https://r/s")
      ∷ [];
}

abbrev plain : Text → Response
plain t = record { content_encoding = none; content_length = none; arrivals = chunk t ∷ [] }

abbrev lines : List SumLine
lines =
    record { digest = text "AB"; name = text "pansou-linux-x86_64.tar.gz"; binary = true }
    ∷ record { digest = text "cd"; name = text "pansou-windows-x86_64.zip"; binary = false }
    ∷ []

abbrev reply : Text → Response
reply url =
    if text_beq url (text "https://r/a")
    then plain (text "ab")
    else if text_beq url (text "https://r/s")
    then plain (print_sums lines)
    else plain []

abbrev sample_service : Service
sample_service = record {
  decoders = record { Reader = Unit {0}; open_reader = λ c b. tt; read = λ r n. ok ([], r) };
  execute = λ url. ok (200, reply url);
  read_release = λ bytes. some release;
}

abbrev sample_plan : UpdatePlan sample_semver
sample_plan = record {
  current = b'2';
  target = b'3';
  notes = [];
  needs_install = true;
  asset_name = text "pansou-linux-x86_64.tar.gz";
  archive_url = text "https://r/a";
  checksum_url = text "https://r/s";
}

checked :
    check sample_semver sample_service
      (text "https://api")
      (text "linux")
      (text "x86_64")
      (text "2")
      none
    ≡ ok sample_plan
unfolding check
checked = refl

check-IsPlan_example :
    (check sample_semver sample_service
        (text "https://api")
        (text "linux")
        (text "x86_64")
        (text "2")
        none
      ≡ ok sample_plan)
    ↔ IsPlan sample_semver sample_service
        (text "https://api")
        (text "linux")
        (text "x86_64")
        (text "2")
        none
        sample_plan
check-IsPlan_example =
    check-IsPlan sample_semver sample_service (text "https://api") (text "linux") (text "x86_64")
      (text "2") none sample_plan

verify_checksum-print_sums_example :
    (verify_checksum sample_env [] (print_sums lines) (text "pansou-windows-x86_64.zip") ≡ ok tt)
    ↔ ((l : SumLine) × (retain (is_named (text "pansou-windows-x86_64.zip")) lines ≡ l ∷ [])
        × (to_ascii_lowercase l.digest ≡ to_ascii_lowercase (sample_env.sha256_hex [])))
unfolding is_whitespace
verify_checksum-print_sums_example =
    verify_checksum-print_sums sample_env [] lines (text "pansou-windows-x86_64.zip")
      (((refl, refl), (refl, refl), refl), (((refl, refl), (refl, refl), refl), tt))

-- An archive of a note and the program.
abbrev entries : List (Result Text TarEntry)
entries =
    ok (record { path = ok (text "README"); is_file = true; content = chunk (1 ∷ []) ∷ [] })
    ∷ ok (record { path = ok (text "pansou"); is_file = true; content = chunk (5 ∷ 6 ∷ []) ∷ [] })
    ∷ []

abbrev sample_archives : Archives
sample_archives = record { open_zip = λ b. err []; open_tar = λ b. ok entries }

binary_of-Extracts_example :
    (binary_of sample_archives (text "ab") (text "pansou-linux-x86_64.tar.gz") ≡ ok (5 ∷ 6 ∷ []))
    ↔ Extracts sample_archives (text "ab") (text "pansou-linux-x86_64.tar.gz") (5 ∷ 6 ∷ [])
binary_of-Extracts_example =
    binary_of-Extracts sample_archives (text "ab") (text "pansou-linux-x86_64.tar.gz") (5 ∷ 6 ∷ [])

abbrev sample_machine : Machine
sample_machine = record {
  run = λ program arguments. ok (record { success = true; stdout = text "pansou 3"; stderr = [] });
  owns = λ program flag path. false;
  from_utf8 = λ bytes. some bytes;
  from_utf8_lossy = λ bytes. bytes;
}

abbrev before : Installation
before = record { program = record { content = 1 ∷ []; mode = 493 }; backups = [] }

install-IsSafe_example :
    IsSafe sample_semver sample_env sample_service sample_archives sample_machine sample_plan
      (text "/home/u/.config")
      before
      (install sample_semver sample_env sample_service sample_archives sample_machine
        nothing_refused
        (ok (text "/home/u/bin/pansou"))
        sample_plan
        (text "/home/u/.config")
        before)
install-IsSafe_example =
    install-IsSafe sample_semver sample_env sample_service sample_archives sample_machine
      nothing_refused (ok (text "/home/u/bin/pansou")) sample_plan (text "/home/u/.config") before

-- The run above replaces the program.
installed_content :
    (install sample_semver sample_env sample_service sample_archives sample_machine nothing_refused
      (ok (text "/home/u/bin/pansou"))
      sample_plan
      (text "/home/u/.config")
      before).0.program.content
    ≡ 5 ∷ 6 ∷ []
unfolding install
installed_content = refl

abbrev new_program : Program
new_program = record { content = 5 ∷ 6 ∷ []; mode = 493 }

verified :
    IsVerified sample_semver sample_env sample_service sample_archives sample_machine sample_plan
      (text "/home/u/.config")
      new_program
unfolding staged_program
verified =
    (staged_program-IsVerified sample_semver sample_env sample_service sample_archives
      sample_machine nothing_refused sample_plan (text "/home/u/.config")
      (text "/home/u/bin/pansou") new_program refl).1

allowed : validate_install_location sample_machine (text "/home/u/bin/pansou") ≡ ok tt
unfolding validate_install_location
allowed = refl

install_installs_example :
    install sample_semver sample_env sample_service sample_archives sample_machine nothing_refused
      (ok (text "/home/u/bin/pansou"))
      sample_plan
      (text "/home/u/.config")
      before
    ≡ (
      record { program = new_program; backups = before.program ∷ [] },
      ok (
          finish_install sample_semver sample_env sample_service sample_archives sample_machine
            new_program
            (text "/home/u/.config")
            b'3'
            0),
    )
install_installs_example =
    install_installs sample_semver sample_env sample_service sample_archives sample_machine
      sample_plan (text "/home/u/.config") (text "/home/u/bin/pansou") before new_program refl
      allowed refl verified
