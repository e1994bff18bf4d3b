-- ===== src/Update.antt =====
-- src/update/mod.rs: finding a release, and replacing the running program by it. Versions, the
-- service that answers requests, archives, running programs and what the operating system refuses
-- are arguments; the build is the one for Linux.
pub mod Checksum
pub mod Archive
pub mod Install
pub mod Verified
pub mod Safety
pub mod Sums
pub mod Plan
use panshou.Prelude.{
  ℕ, ◌*◌, Bool, true, false, not, ◌&&◌, ◌||◌, Option, none, some, List, [], ◌∷◌, ◌++◌, leb, ltb,
  ◌==◌, if◌then◌else◌, is_some, is_none, unwrap_or,
}
use panshou.Prelude.Results.{Result, ok, err, ◌>>=◌, ◌>>◌, map_err, fail_if, ok_or}
use panshou.Text.{Text, text, text_beq, trim_end_matches, strip_prefix}
use panshou.Http.Body.{Bytes, BodyError, BodyResult, Response, Decoders, read_response}

abbrev pub max_archive : ℕ
max_archive = 128 * 1024 * 1024

pub record Asset : Type 0 where
  pub name : Text
  pub browser_download_url : Text

pub record Release : Type 0 where
  pub tag_name : Text
  pub body : Option Text
  pub prerelease : Bool
  pub draft : Bool
  pub assets : List Asset

-- The `semver` crate.
pub record Semver : Type 1 where
  pub Version : Type 0
  pub parse : Text → Option Version
  pub same : Version → Version → Bool
  -- `>`.
  pub newer : Version → Version → Bool
  -- `!pre.is_empty()`.
  pub is_pre : Version → Bool
  pub display : Version → Text

pub data UpdateError : Type 0 where
  invalid_version not_published wrong_version no_checksums not_needed : UpdateError
  no_parent not_utf8 not_run check_failed no_reported wrong_reported : UpdateError
  invalid_response invalid_entry no_binary development_build : UpdateError
  no_platform : (os arch : Text) → UpdateError
  no_asset checksum_entries checksum_differs managed owned : Text → UpdateError
  request_failed io incompatible bad_archive : Text → UpdateError
  bad_status : ℕ → UpdateError
  unreadable : BodyError → UpdateError
  release_check checksum_download program_download : UpdateError → UpdateError
  unfinished : UpdateError

abbrev pub UpdateResult : Type 0 → Type 0
UpdateResult A = Result UpdateError A

-- The network, a request being what `http::execute` comes to: a status and a response.
pub record Service : Type 1 where
  pub decoders : Decoders
  pub execute : Text → Result Text (ℕ × Response)
  -- `serde_json::from_slice`.
  pub read_release : Bytes → Option Release

-- `with_api`: slashes at the end are dropped.
abbrev pub api_of : Text → Text
api_of api = trim_end_matches (λ c. c == b'/') api

-- 4xx and 5xx are errors.
abbrev pub error_for_status : ℕ × Response → UpdateResult Response
error_for_status (code, response) =
    if leb 400 code && ltb code 600 then err (bad_status code) else ok response

abbrev from_body : Option (BodyResult Bytes) → UpdateResult Bytes
from_body none = err unfinished
from_body (some (err e)) = err (unreadable e)
from_body (some (ok bytes)) = ok bytes

unfoldable pub download : Service → Text → (limit : ℕ) → UpdateResult Bytes
unfolding read_response
download service url limit = do
  reply ← map_err request_failed (service.execute url)
  response ← error_for_status reply
  from_body (read_response service.decoders response limit)

abbrev pub named_asset : Text → List Asset → Option Asset
named_asset name [] = none
named_asset name (a ∷ assets) = if text_beq a.name name then some a else named_asset name assets

abbrev platform_of : (os arch : Text) → Option (Text × Text)
platform_of os arch =
    let common = text_beq arch (text "x86_64") || text_beq arch (text "aarch64") in
    if text_beq os (text "linux") && common
    then some (text "linux", text "tar.gz")
    else if text_beq os (text "macos") && common
    then some (text "macos", text "tar.gz")
    else if text_beq os (text "windows") && text_beq arch (text "x86_64")
    then some (text "windows", text "zip")
    else none

abbrev asset_of : (os arch : Text) → Option (Text × Text) → UpdateResult Text
asset_of os arch none = err (no_platform os arch)
asset_of os arch (some (platform, extension)) =
    ok (text "pansou-" ++ platform ++ text "-" ++ arch ++ text "." ++ extension)

unfoldable pub platform_asset : (os arch : Text) → UpdateResult Text
platform_asset os arch = asset_of os arch (platform_of os arch)

module _ (semver : Semver) where
  open semver use {Version, parse, same, newer, is_pre, display}

  pub record UpdatePlan : Type 0 where
    pub current : Version
    pub target : Version
    pub notes : Text
    pub needs_install : Bool
    pub asset_name : Text
    pub archive_url : Text
    pub checksum_url : Text

  unfoldable pub parse_version : Text → UpdateResult Version
  parse_version value =
      ok_or (parse (unwrap_or (strip_prefix (text "v") value) value)) invalid_version

  abbrev pub endpoint : (api : Text) → Option Text → UpdateResult Text
  unfolding parse_version
  endpoint api none = ok (api ++ text "/releases/latest")
  endpoint api (some version) =
      parse_version version >>= λ v. ok (api ++ text "/releases/tags/v" ++ display v)

  -- A release that was not asked for is a stable one.
  abbrev pub is_unpublished : Release → Version → Option Text → Bool
  is_unpublished release target requested =
      release.draft || (is_none requested && (release.prerelease || is_pre target))

  abbrev pub as_requested : Version → Option Text → UpdateResult (Unit {0})
  unfolding parse_version
  as_requested target none = ok tt
  as_requested target (some expected) =
      parse_version expected >>= λ v. fail_if (not (same target v)) wrong_version

  abbrev pub fetch_release : Service → (url : Text) → UpdateResult Release
  unfolding download
  fetch_release service url = do
    bytes ← map_err release_check (download service url (4 * 1024 * 1024))
    ok_or (service.read_release bytes) invalid_response

  abbrev pub plan_of :
      (os arch : Text)
      → Release
      → (current target : Version) → Option Text
      → UpdateResult UpdatePlan
  unfolding platform_asset
  plan_of os arch release current target requested = do
    asset_name ← platform_asset os arch
    asset ← ok_or (named_asset asset_name release.assets) (no_asset asset_name)
    checksums ← ok_or (named_asset (text "SHA256SUMS") release.assets) no_checksums
    ok (record {
      current = current;
      target = target;
      notes = unwrap_or release.body [];
      needs_install = if is_some requested then not (same target current) else newer target current;
      asset_name = asset_name;
      archive_url = asset.browser_download_url;
      checksum_url = checksums.browser_download_url;
    })

  unfoldable pub check :
      Service → (api os arch current : Text) → (requested : Option Text) → UpdateResult UpdatePlan
  unfolding parse_version download platform_asset
  check service api os arch current requested = do
    version ← parse_version current
    url ← endpoint api requested
    release ← fetch_release service url
    target ← parse_version release.tag_name
    fail_if (is_unpublished release target requested) not_published
    as_requested target requested
    plan_of os arch release version target requested
