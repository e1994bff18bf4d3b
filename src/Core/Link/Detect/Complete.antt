-- ===== src/Core/Link/Detect/Complete.antt =====
-- No host fits the domains of two drives, so the order of the tests does not matter.
use mathlib.Core.List.{reverse, reverse-append}
use panshou.Prelude.{
  ℕ, zero, suc, ◌≡◌, refl, sym, ◌∙◌, ap, Bool, true, false, not, ◌&&◌, ◌||◌, some, List, [], ◌∷◌,
  ◌++◌, arith, any, all, get_elem?, Bool-cases, inl, inr,
}
use panshou.Text.{
  Text, text, text_beq, text_beq_iff, trim, to_ascii_lowercase, starts_with, ends_with,
}
use panshou.Env.{Env}
use panshou.Core.Cloud.{CloudType}
use panshou.Core.Link.Detect.{
  is_host_of, in_domains, domain_table, type_of_host, host_to_test, detect_cloud_type,
}
use panshou.Core.Link.Detect.Sound.{HasRow}

starts_with_self : (s : Text) → starts_with s s ≡ true
starts_with_self [] = refl
starts_with_self (c ∷ s) = ground (arith, starts_with_self s)

starts_with_left : (p q s : Text) → starts_with (p ++ q) s ≡ true → starts_with p s ≡ true
starts_with_left [] q s h = refl
starts_with_left (a ∷ p) q [] h = h
starts_with_left (a ∷ p) q (b ∷ s) h = ground (arith, starts_with_left p q s)

-- Of two prefixes of one text one is a prefix of the other.
abbrev comparable : Text → Text → Bool
comparable p q = starts_with p q || starts_with q p

prefixes-comparable :
    (p q s : Text) → starts_with p s ≡ true → starts_with q s ≡ true → comparable p q ≡ true
prefixes-comparable [] q s h k = refl
prefixes-comparable (a ∷ p) [] s h k = refl
prefixes-comparable (a ∷ p) (b ∷ q) [] h k = absurd (cc)
prefixes-comparable (a ∷ p) (b ∷ q) (c ∷ s) h k = ground (arith, prefixes-comparable p q s)

host-starts_with :
    (host d : Text) → is_host_of host d ≡ true → starts_with (reverse d) (reverse host) ≡ true
host-starts_with host d h = elim (Bool-cases (text_beq host d)) [
  | inl same ↦ rw ((text_beq_iff host d).0 same) (starts_with_self (reverse d))
  | inr other ↦
      let ends : ends_with (text "." ++ d) host ≡ true = ground arith in
      starts_with_left (reverse d) (reverse (text ".")) (reverse host)
        (ap (λ p. starts_with p (reverse host)) (sym (reverse-append (text ".") d)) ∙ ends)
]

-- Neither of two domains can be a suffix of a host that the other fits.
abbrev clash : Text → Text → Bool
clash d e = comparable (reverse d) (reverse e)

abbrev clash_any : Text → List Text → Bool
clash_any d es = any (λ e. clash d e) es

abbrev apart : List Text → List Text → Bool
apart ds es = all (λ d. not (clash_any d es)) ds

not-in_domains :
    (host d : Text) (es : List Text)
    → is_host_of host d ≡ true
    → clash_any d es ≡ false
    → in_domains es host ≡ false
not-in_domains host d [] h k = refl
not-in_domains host d (e ∷ es) h k = elim (Bool-cases (is_host_of host e)) [
  | inl fits ↦
      let both =
        prefixes-comparable (reverse d) (reverse e) (reverse host) (host-starts_with host d h)
          (host-starts_with host e fits) in
      absurd (ground arith)
  | inr misses ↦ rw misses (not-in_domains host d es h (ground arith))
]

apart-not-in_domains :
    (host : Text) (ds es : List Text)
    → apart ds es ≡ true
    → in_domains ds host ≡ true
    → in_domains es host ≡ false
apart-not-in_domains host [] es h k = absurd (cc)
apart-not-in_domains host (d ∷ ds) es h k = elim (Bool-cases (is_host_of host d)) [
  | inl fits ↦ not-in_domains host d es fits (ground arith)
  | inr misses ↦ apart-not-in_domains host ds es (ground arith) (ground arith)
]

-- The domains of every row are apart from those of the rows above it.
separated : List (List Text × CloudType) → Bool
separated [] = true
separated ((ds, c) ∷ table) = all (λ row. apart row.0 ds) table && separated table

all-get_elem? :
    (p : List Text × CloudType → Bool) (table : List (List Text × CloudType)) (i : ℕ)
    (row : List Text × CloudType)
    → all p table ≡ true
    → get_elem? table i ≡ some row
    → p row ≡ true
all-get_elem? p [] i row h e = absurd (cc)
all-get_elem? p (x ∷ table) zero row h e =
    let same : x ≡ row = ground arith in rw (← same) (ground arith)
all-get_elem? p (x ∷ table) (suc i) row h e = all-get_elem? p table i row (ground arith) e

type_of_host_of_row :
    (table : List (List Text × CloudType)) (host : Text) (c : CloudType)
    → separated table ≡ true
    → HasRow table host c
    → type_of_host table host ≡ c
unfolding type_of_host separated
type_of_host_of_row [] host c h (i, ds, at, fits) = absurd (cc)
type_of_host_of_row ((es, t) ∷ table) host c h (zero, ds, at, fits) =
    let types : t ≡ c = ground arith in
    let domains : es ≡ ds = ground arith in rw (domains, fits) types
type_of_host_of_row ((es, t) ∷ table) host c h (suc i, ds, at, fits) =
    let clear = all-get_elem? (λ row. apart row.0 es) table i (ds, c) (ground arith) at in
    rw (apart-not-in_domains host ds es clear fits)
      (type_of_host_of_row table host c (ground arith) (i, ds, at, fits))

domain_table-separated : separated domain_table ≡ true
unfolding separated
domain_table-separated = refl

-- A link whose host is one of a drive's domains, or a subdomain of one, is taken for that drive:
-- no earlier test of another drive can catch it.
pub detect_cloud_type_of_row :
    (env : Env) (raw host : Text) (c : CloudType)
    → starts_with (text "magnet:") (to_ascii_lowercase (trim raw)) ≡ false
    → starts_with (text "ed2k:") (to_ascii_lowercase (trim raw)) ≡ false
    → host_to_test env (to_ascii_lowercase (trim raw)) ≡ some host
    → HasRow domain_table host c
    → detect_cloud_type env raw ≡ c
unfolding detect_cloud_type
detect_cloud_type_of_row env raw host c m e h row =
    rw (m, e, h) (type_of_host_of_row domain_table host c domain_table-separated row)
