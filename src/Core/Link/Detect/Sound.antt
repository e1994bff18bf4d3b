-- ===== src/Core/Link/Detect/Sound.antt =====
-- When a link is taken for a drive: its host is one of the drive's, whatever the order of the tests.
use mathlib.Core.List.{reverse, reverse-append, reverse-reverse}
use panshou.Prelude.{
  ℕ, suc, ◌≡◌, ◌≢◌, refl, sym, ◌∙◌, ap, true, ◌⊎◌, some, List, [], ◌∷◌, ◌++◌, arith, get_elem?,
  Bool-cases, Option-cases, inl, inr,
}
use panshou.Text.{
  Text, text, text_beq, text_beq_iff, trim, to_ascii_lowercase, starts_with, ends_with,
}
use panshou.Env.{Env}
use panshou.Core.Cloud.{CloudType, magnet, ed2k, others}
use panshou.Core.Link.Detect.{
  is_host_of, in_domains, domain_table, type_of_host, host_to_test, detect_cloud_type,
}

-- A row of the table that names the type and whose domains fit the host.
abbrev pub HasRow : List (List Text × CloudType) → Text → CloudType → Type 0
HasRow table host c =
    (i : ℕ) × (ds : List Text) × (get_elem? table i ≡ some (ds, c)) × (in_domains ds host ≡ true)

type_of_host-HasRow :
    (table : List (List Text × CloudType)) (host : Text) (c : CloudType)
    → type_of_host table host ≡ c
    → c ≢ others
    → HasRow table host c
unfolding type_of_host
type_of_host-HasRow [] host c h n = absurd (n (sym h))
type_of_host-HasRow ((ds, t) ∷ table) host c h n = elim (Bool-cases (in_domains ds host)) [
  | inl e ↦ (0, ds, ground arith, e)
  | inr e ↦
      let (i, ds', at, fits) = type_of_host-HasRow table host c (ground arith) n in
      (suc i, ds', at, fits)
]

-- A host is a domain, or a label or more and a dot before one.
abbrev pub IsUnder : (host domain : Text) → Type 0
IsUnder host domain = (host ≡ domain) ⊎ ((labels : Text) × (host ≡ labels ++ b'.' ∷ domain))

starts_with-append : (p s : Text) → starts_with p s ≡ true → (rest : Text) × (s ≡ p ++ rest)
starts_with-append [] s h = (s, refl)
starts_with-append (a ∷ p) [] h = cc
starts_with-append (a ∷ p) (b ∷ s) h =
    let (rest, e) = starts_with-append p s (ground arith) in
    let first : b ≡ a = ground arith in (rest, λ i. first i ∷ e i)

ends_with-append :
    (suffix s : Text) → ends_with suffix s ≡ true → (rest : Text) × (s ≡ rest ++ suffix)
ends_with-append suffix s h =
    let (rest, e) = starts_with-append (reverse suffix) (reverse s) h in
    (
      reverse rest,
      sym (reverse-reverse s)
          ∙ ap reverse e
          ∙ reverse-append (reverse suffix) rest
          ∙ ap (λ t. reverse rest ++ t) (reverse-reverse suffix),
    )

is_host_of-IsUnder : (host domain : Text) → is_host_of host domain ≡ true → IsUnder host domain
is_host_of-IsUnder host domain h = elim (Bool-cases (text_beq host domain)) [
  | inl same ↦ inl ((text_beq_iff host domain).0 same)
  | inr other ↦ inr (ends_with-append (b'.' ∷ domain) host (ground arith))
]

in_domains-IsUnder :
    (ds : List Text) (host : Text)
    → in_domains ds host ≡ true
    → (j : ℕ) × (domain : Text) × (get_elem? ds j ≡ some domain) × IsUnder host domain
in_domains-IsUnder [] host h = absurd (ground arith)
in_domains-IsUnder (d ∷ ds) host h = elim (Bool-cases (is_host_of host d)) [
  | inl e ↦ (0, d, refl, is_host_of-IsUnder host d e)
  | inr e ↦
      let (j, domain, at, under) = in_domains-IsUnder ds host (ground arith) in
      (suc j, domain, at, under)
]

module _ (env : Env) where
  -- A URL on HTTP or HTTPS with this host.
  abbrev pub IsWebUrl : (value host : Text) → Type 0
  IsWebUrl value host =
      (url : env.Url) × (env.parse_url value ≡ some url)
      × ((env.scheme url ≡ text "http") ⊎ (env.scheme url ≡ text "https"))
      × (env.host_str url ≡ some host)

  host_to_test-IsWebUrl :
      (value : Text) {host : Text} → host_to_test env value ≡ some host → IsWebUrl value host
  host_to_test-IsWebUrl value {host} h = elim (Option-cases (env.parse_url value)) [
    | inl e ↦ absurd (ground arith)
    | inr (url, e) ↦ elim (Bool-cases (text_beq (env.scheme url) (text "http"))) [
      | inl k ↦ (
        url,
        e,
        inl ((text_beq_iff (env.scheme url) (text "http")).0 k),
        rw (e, k, host_to_test) at h,
      )
      | inr k ↦ elim (Bool-cases (text_beq (env.scheme url) (text "https"))) [
        | inl l ↦ (
          url,
          e,
          inr ((text_beq_iff (env.scheme url) (text "https")).0 l),
          rw (e, k, l, host_to_test) at h,
        )
        | inr l ↦ absurd (ground arith)
      ]
    ]
  ]

  -- One of the drive's domains, at some place of its row in the table, is the host's.
  abbrev pub IsOnDrive : (host : Text) → CloudType → Type 0
  IsOnDrive host c =
      (i : ℕ) × (ds : List Text) × (j : ℕ) × (domain : Text) × (get_elem? domain_table i
        ≡ some (ds, c))
      × (get_elem? ds j ≡ some domain)
      × IsUnder host domain

  detect_cloud_type-HasRow :
      (raw : Text) (c : CloudType)
      → detect_cloud_type env raw ≡ c
      → c ≢ magnet
      → c ≢ ed2k
      → c ≢ others
      → (host : Text) × (host_to_test env (to_ascii_lowercase (trim raw)) ≡ some host)
        × HasRow domain_table host c
  unfolding detect_cloud_type
  detect_cloud_type-HasRow raw c h m e n =
      let value = to_ascii_lowercase (trim raw) in
      elim (Bool-cases (starts_with (text "magnet:") value)) [
        | inl a ↦ absurd (m (sym (rw (a, detect_cloud_type) at h)))
        | inr a ↦ elim (Bool-cases (starts_with (text "ed2k:") value)) [
          | inl b ↦ absurd (e (sym (rw (a, b, detect_cloud_type) at h)))
          | inr b ↦ elim (Option-cases (host_to_test env value)) [
            | inl k ↦ absurd (n (sym (rw (a, b, k, detect_cloud_type) at h)))
            | inr (host, k) ↦ (
              host,
              k,
              type_of_host-HasRow domain_table host c (rw (a, b, k, detect_cloud_type) at h) n,
            )
          ]
        ]
      ]

  -- A link that is taken for a drive (and so is neither a magnet link nor ed2k) parses as a URL on HTTP
  -- or HTTPS, once trimmed and in lower case, and its host is one of the drive's domains in the
  -- table, or ends with a dot and one of them.
  pub detect_cloud_type-IsOnDrive :
      (raw : Text) (c : CloudType)
      → detect_cloud_type env raw ≡ c
      → c ≢ magnet
      → c ≢ ed2k
      → c ≢ others
      → (host : Text) × IsWebUrl (to_ascii_lowercase (trim raw)) host × IsOnDrive host c
  detect_cloud_type-IsOnDrive raw c h m e n =
      let (host, tested, (i, ds, at, fits)) = detect_cloud_type-HasRow raw c h m e n in
      let (j, domain, there, under) = in_domains-IsUnder ds host fits in
      (
        host,
        host_to_test-IsWebUrl (to_ascii_lowercase (trim raw)) tested,
        (i, ds, j, domain, at, there, under),
      )
