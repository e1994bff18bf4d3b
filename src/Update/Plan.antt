-- ===== src/Update/Plan.antt =====
-- check in src/update/mod.rs: which release a plan installs.
use panshou.Prelude.{
  ◌↔◌, sym, ◌≡◌, refl, ap, subst, Bool, true, false, not, Option, none, some, List, [], ◌∷◌, ◌++◌,
  arith, All, if◌then◌else◌, is_some, unwrap_or, Bool-cases, inl, inr,
}
use panshou.Prelude.Results.{ok, >>=-eq_ok, fail_if-eq_ok, passed, ok_or-eq_ok}
use panshou.Text.{Text, text, text_beq, text_beq_iff}
use panshou.Update.{
  Asset, Release, Semver, Service, wrong_version, not_published, no_asset, no_checksums,
  named_asset, platform_asset, UpdatePlan, parse_version, endpoint, is_unpublished, as_requested,
  fetch_release, check,
}

-- The first asset of the name.
abbrev pub IsFirst : (name : Text) → List Asset → Asset → Type 0
IsFirst name assets a =
    (before after : List Asset) × (assets ≡ before ++ a ∷ after)
    × All (λ b. text_beq b.name name ≡ false) before
    × (a.name ≡ name)

named_asset-IsFirst :
    (name : Text) (assets : List Asset) (a : Asset)
    → named_asset name assets ≡ some a
    → IsFirst name assets a
named_asset-IsFirst name [] a h = cc
named_asset-IsFirst name (b ∷ assets) a h = elim (Bool-cases (text_beq b.name name)) [
  | inl k ↦
      let same : b ≡ a = ground arith in
      (
        [],
        assets,
        ap (λ x. x ∷ assets) same,
        tt,
        subst (λ x. x.name ≡ name) same ((text_beq_iff b.name name).0 k),
      )
  | inr k ↦
      let (before, after, e, others, same) = named_asset-IsFirst name assets a (ground arith) in
      (b ∷ before, after, ap (λ l. b ∷ l) e, (k, others), same)
]

named_asset-append :
    (name : Text) (before after : List Asset) (a : Asset)
    → All (λ b. text_beq b.name name ≡ false) before
    → a.name ≡ name
    → named_asset name (before ++ a ∷ after) ≡ some a
named_asset-append name [] after a others same = rw ((text_beq_iff a.name name).1 same) refl
named_asset-append name (b ∷ before) after a others same =
    rw others.0 (named_asset-append name before after a others.1 same)

IsFirst-named_asset :
    (name : Text) (assets : List Asset) (a : Asset)
    → IsFirst name assets a
    → named_asset name assets ≡ some a
IsFirst-named_asset name assets a (before, after, e, others, same) =
    rw e (named_asset-append name before after a others same)

module _ (semver : Semver) (service : Service) where
  open semver use {Version, same, newer, is_pre}

  -- A version that was asked for is installed unless it is there; otherwise only a stable one
  -- that is newer is.
  abbrev pub Wants :
      Release → (target current : Version) → Option Text → (needs_install : Bool) → Type 0
  Wants release target current none needs_install =
      (release.prerelease ≡ false)
      × (is_pre target ≡ false)
      × (needs_install ≡ newer target current)
  Wants release target current (some expected) needs_install =
      (v : Version) × (parse_version semver expected ≡ ok v)
      × (same target v ≡ true)
      × (needs_install ≡ not (same target current))

  abbrev pub IsPlan : (api os arch current : Text) → Option Text → UpdatePlan semver → Type 0
  IsPlan api os arch current requested plan =
      (url : Text) × (release : Release) × (endpoint semver api requested ≡ ok url)
      × (fetch_release semver service url ≡ ok release)
      × (release.draft ≡ false)
      × (parse_version semver current ≡ ok plan.current)
      × (parse_version semver release.tag_name ≡ ok plan.target)
      × Wants release plan.target plan.current requested plan.needs_install
      × (plan.notes ≡ unwrap_or release.body [])
      × (platform_asset os arch ≡ ok plan.asset_name)
      × ((a : Asset) × IsFirst plan.asset_name release.assets a
          × (a.browser_download_url ≡ plan.archive_url))
      × ((a : Asset) × IsFirst (text "SHA256SUMS") release.assets a
          × (a.browser_download_url ≡ plan.checksum_url))

  requested-Wants :
      (release : Release) (target current : Version) (requested : Option Text) {u : Unit {0}}
      → is_unpublished semver release target requested ≡ false
      → as_requested semver target requested ≡ ok u
      → Wants release target current requested
          (if is_some requested then not (same target current) else newer target current)
  unfolding as_requested
  requested-Wants release target current none h k = ground arith
  requested-Wants release target current (some expected) h k =
      let (v, parsed, rest) = >>=-eq_ok (parse_version semver expected) _ k in
      (v, parsed, passed (same target v) wrong_version rest, refl)

  is_draft-false :
      (release : Release) (target : Version) (requested : Option Text)
      → is_unpublished semver release target requested ≡ false
      → release.draft ≡ false
  is_draft-false release target requested h = ground arith

  checked-IsPlan :
      (api os arch current : Text) (requested : Option Text) (plan : UpdatePlan semver)
      → check semver service api os arch current requested ≡ ok plan
      → IsPlan api os arch current requested plan
  unfolding check
  checked-IsPlan api os arch current requested plan h =
      let (version, parsed, h1) = >>=-eq_ok (parse_version semver current) _ h in
      let (url, addressed, h2) = >>=-eq_ok (endpoint semver api requested) _ h1 in
      let (release, fetched, h3) = >>=-eq_ok (fetch_release semver service url) _ h2 in
      let (target, tagged, h4) = >>=-eq_ok (parse_version semver release.tag_name) _ h3 in
      let (published, h5) =
        fail_if-eq_ok (is_unpublished semver release target requested) not_published _ h4 in
      let (_, wanted, h6) = >>=-eq_ok (as_requested semver target requested) _ h5 in
      let (asset_name, platform, h7) = >>=-eq_ok (platform_asset os arch) _ h6 in
      let (asset, has_asset, h8) =
        ok_or-eq_ok (named_asset asset_name release.assets) (no_asset asset_name) _ h7 in
      let (sums, has_sums, h9) =
        ok_or-eq_ok (named_asset (text "SHA256SUMS") release.assets) no_checksums _ h8 in
      let made : UpdatePlan semver = record {
        current = version;
        target = target;
        notes = unwrap_or release.body [];
        needs_install =
            if is_some requested then not (same target version) else newer target version;
        asset_name = asset_name;
        archive_url = asset.browser_download_url;
        checksum_url = sums.browser_download_url;
      } in
      let is_made : made ≡ plan = ground arith in
      subst (IsPlan api os arch current requested) is_made (
        url,
        release,
        addressed,
        fetched,
        is_draft-false release target requested published,
        parsed,
        tagged,
        requested-Wants release target version requested published wanted,
        refl,
        platform,
        (asset, named_asset-IsFirst asset_name release.assets asset has_asset, refl),
        (sums, named_asset-IsFirst (text "SHA256SUMS") release.assets sums has_sums, refl),
      )

  -- The other way: a release that meets the description is accepted.
  published :
      (release : Release) (target current : Version) (requested : Option Text)
      (needs_install : Bool)
      → release.draft ≡ false
      → Wants release target current requested needs_install
      → (is_unpublished semver release target requested ≡ false)
        × (as_requested semver target requested ≡ ok tt)
        × ((if is_some requested then not (same target current) else newer target current)
            ≡ needs_install)
  unfolding as_requested
  published release target current none n draft (stable, release_only, wanted) =
      (ground arith, refl, sym wanted)
  published release target current (some expected) n draft (v, parsed, equal, wanted) =
      (rw draft refl, rw parsed (rw equal refl), sym wanted)

  planned :
      (api os arch current : Text) (requested : Option Text) (plan : UpdatePlan semver)
      → IsPlan api os arch current requested plan
      → check semver service api os arch current requested ≡ ok plan
  unfolding check
  planned api os arch current requested plan
        (
          url,
          release,
          addressed,
          fetched,
          draft,
          parsed,
          tagged,
          wants,
          notes,
          platform,
          (asset, first, archive),
          (sums, listed, checksums),
        ) =
      let (public, wanted, needed) =
        published release plan.target plan.current requested plan.needs_install draft wants in
      rw parsed (
        rw addressed (
          rw fetched (
            rw tagged (
              rw public (
                rw wanted (
                  rw platform (
                    rw (IsFirst-named_asset plan.asset_name release.assets asset first) (
                      rw (IsFirst-named_asset (text "SHA256SUMS") release.assets sums listed) (λ i.
                        ok (record plan {
                          notes = sym notes i;
                          needs_install = needed i;
                          archive_url = archive i;
                          checksum_url = checksums i;
                        }))))))))))

  -- A plan is made exactly if a release can be fetched from the address for what was asked that is no
  -- draft, names a version, and has files of the names for the platform and for the checksums, the first
  -- of which are downloaded. Without a request it must be no pre-release and is installed exactly if it is
  -- newer; with one its version must be that of the request, and it is installed unless it is the
  -- current one.
  pub check-IsPlan :
      (api os arch current : Text) (requested : Option Text) (plan : UpdatePlan semver)
      → (check semver service api os arch current requested ≡ ok plan)
        ↔ IsPlan api os arch current requested plan
  check-IsPlan api os arch current requested plan = (
    checked-IsPlan api os arch current requested plan,
    planned api os arch current requested plan,
  )
