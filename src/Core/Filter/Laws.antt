-- ===== src/Core/Filter/Laws.antt =====
-- What is left after filtering, and that filtering again leaves it alone.
use panshou.Prelude.{
  ◌≡◌, refl, ap, Bool, true, false, ◌||◌, some, List, [], ◌∷◌, map, arith, is_empty, retain,
  filter_map, All, retain-All, retain_of_All, All-retain, Bool-cases, Option-cases, inl, inr,
}
use panshou.Text.{Text}
use panshou.Env.{Env, to_lowercase}
use panshou.Core.Model.{Link, SearchResult}
use panshou.Core.Filter.{
  FilterOptions, has_any, title_rejected, link_title_accepted, in_types, link_title, kept_by_title,
  kept_by_type, filter_one, filter_results,
}

-- The words in lower case, as `filter_results` computes them.
abbrev includes_of : Env → FilterOptions → List Text
includes_of env o = map (to_lowercase env) o.include

abbrev excludes_of : Env → FilterOptions → List Text
excludes_of env o = map (to_lowercase env) o.exclude

-- A title in lower case has a wanted word (if any is asked for) and no unwanted one.
pub record Titled (includes excludes : List Text) (title : Text) : Type 0 where
  pub wanted : is_empty includes || has_any includes title ≡ true
  pub unwanted : has_any excludes title ≡ false

link_title_accepted-Titled :
    (includes excludes : List Text) (title : Text)
    → link_title_accepted includes excludes title ≡ true
    → Titled includes excludes title
link_title_accepted-Titled includes excludes title h = record {
  wanted = ground arith;
  unwanted = ground arith;
}

accepted_of_Titled :
    (includes excludes : List Text) (title : Text)
    → Titled includes excludes title
    → link_title_accepted includes excludes title ≡ true
accepted_of_Titled includes excludes title t =
    let w = t.wanted in let u = t.unwanted in ground arith

title_rejected-Titled :
    (includes excludes : List Text) (title : Text)
    → title_rejected includes excludes title ≡ false
    → Titled includes excludes title
title_rejected-Titled includes excludes title h = record {
  wanted = ground arith;
  unwanted = ground arith;
}

kept_of_Titled :
    (includes excludes : List Text) (title : Text)
    → Titled includes excludes title
    → title_rejected includes excludes title ≡ false
kept_of_Titled includes excludes title t = let w = t.wanted in let u = t.unwanted in ground arith

-- A link may stay: its title has a wanted word (if any is asked for) and no unwanted one, and its
-- type is asked for (if any is).
pub record Accepts (env : Env) (o : FilterOptions) (t : Text) (l : Link) : Type 0 where
  pub title : Titled (includes_of env o) (excludes_of env o) (to_lowercase env (link_title t l))
  pub cloud : is_empty o.cloud_types || in_types o.cloud_types l.cloud_type ≡ true

pub record Passes (env : Env) (o : FilterOptions) (r : SearchResult) : Type 0 where
  pub title : Titled (includes_of env o) (excludes_of env o) (to_lowercase env r.title)
  pub nonempty : is_empty r.links ≡ false
  pub links : All (Accepts env o r.title) r.links

module _ (env : Env) (o : FilterOptions) where
  abbrev title_test : Text → Link → Bool
  title_test t l =
      link_title_accepted (includes_of env o) (excludes_of env o)
        (to_lowercase env (link_title t l))

  abbrev type_test : Link → Bool
  type_test l = in_types o.cloud_types l.cloud_type

  Accepts-All :
      (t : Text) (ls : List Link)
      → All (λ l. title_test t l ≡ true) ls
      → All (λ l. is_empty o.cloud_types || type_test l ≡ true) ls
      → All (Accepts env o t) ls
  Accepts-All t [] h k = tt
  Accepts-All t (l ∷ ls) h k = (
    record {
      title =
          link_title_accepted-Titled (includes_of env o) (excludes_of env o)
            (to_lowercase env (link_title t l)) h.0;
      cloud = k.0;
    },
    Accepts-All t ls h.1 k.1,
  )

  any_type :
      (ls : List Link)
      → is_empty o.cloud_types ≡ true
      → All (λ l. is_empty o.cloud_types || type_test l ≡ true) ls
  any_type [] h = tt
  any_type (l ∷ ls) h = (ground arith, any_type ls h)

  typed :
      (ls : List Link)
      → All (λ l. type_test l ≡ true) ls
      → All (λ l. is_empty o.cloud_types || type_test l ≡ true) ls
  typed [] h = tt
  typed (l ∷ ls) h = (ground arith, typed ls h.1)

  kept-Accepts :
      (r : SearchResult)
      → All
          (Accepts env o r.title)
          (kept_by_type o.cloud_types (kept_by_title env (includes_of env o) (excludes_of env o) r))
  kept-Accepts r =
      let titled = retain (title_test r.title) r.links in
      let fits = retain-All (title_test r.title) r.links in
      elim (Bool-cases (is_empty o.cloud_types)) [
        | inl e ↦ rw e (Accepts-All r.title titled fits (any_type titled e))
        | inr e ↦ rw e (
            Accepts-All r.title (retain type_test titled)
              (All-retain (λ l. title_test r.title l ≡ true) type_test titled fits)
              (typed (retain type_test titled) (retain-All type_test titled)))
      ]

  filter_one-Passes :
      (r : SearchResult) {r' : SearchResult}
      → filter_one env (includes_of env o) (excludes_of env o) o r ≡ some r'
      → Passes env o r'
  unfolding filter_one
  filter_one-Passes r {r'} h =
      elim (Bool-cases
        (title_rejected (includes_of env o) (excludes_of env o) (to_lowercase env r.title))) [
          | inl e ↦ absurd (ground arith)
          | inr e ↦ elim (Bool-cases (is_empty links)) [
            | inl k ↦ absurd (ground arith)
            | inr k ↦
                let same : record r { links = links } ≡ r' = ground arith in
                rw (← same) (record {
                  title =
                      title_rejected-Titled (includes_of env o) (excludes_of env o)
                        (to_lowercase env r.title) e;
                  nonempty = k;
                  links = kept-Accepts r;
                })
          ]
        ]
    where
      links : List Link
      links =
          kept_by_type o.cloud_types (kept_by_title env (includes_of env o) (excludes_of env o) r)

  -- Every result that is left has a title with a wanted word and no unwanted one, and at least one
  -- link; each of its links has such a title and a cloud type that was asked for.
  pub filter_results-Passes :
      (rs : List SearchResult) → All (Passes env o) (filter_results env rs o)
  unfolding filter_results
  filter_results-Passes [] = tt
  filter_results-Passes (r ∷ rs) =
      elim (Option-cases (filter_one env (includes_of env o) (excludes_of env o) o r)) [
        | inl e ↦ rw (e, filter_map) (filter_results-Passes rs)
        | inr (r', e) ↦ rw (e, filter_map) (filter_one-Passes r e, filter_results-Passes rs)
      ]

  title_tests :
      (t : Text) (ls : List Link) → All (Accepts env o t) ls → All (λ l. title_test t l ≡ true) ls
  title_tests t [] h = tt
  title_tests t (l ∷ ls) h = (
    accepted_of_Titled (includes_of env o) (excludes_of env o) (to_lowercase env (link_title t l))
        h.0.title,
    title_tests t ls h.1,
  )

  type_tests :
      (t : Text) (ls : List Link)
      → All (Accepts env o t) ls
      → is_empty o.cloud_types ≡ false
      → All (λ l. type_test l ≡ true) ls
  type_tests t [] h e = tt
  type_tests t (l ∷ ls) h e = let c = h.0.cloud in (ground arith, type_tests t ls h.1 e)

  kept-All :
      (r : SearchResult)
      → All (Accepts env o r.title) r.links
      → kept_by_type o.cloud_types (kept_by_title env (includes_of env o) (excludes_of env o) r)
        ≡ r.links
  kept-All r h =
      let titled = retain_of_All (title_test r.title) r.links (title_tests r.title r.links h) in
      elim (Bool-cases (is_empty o.cloud_types)) [
        | inl e ↦ rw e titled
        | inr e ↦ rw (e, titled) (retain_of_All type_test r.links (type_tests r.title r.links h e))
      ]

  filter_one_of_Passes :
      (r : SearchResult)
      → Passes env o r
      → filter_one env (includes_of env o) (excludes_of env o) o r ≡ some r
  unfolding filter_one
  filter_one_of_Passes r p = rw (
    kept_of_Titled (includes_of env o) (excludes_of env o) (to_lowercase env r.title) p.title,
    kept-All r p.links,
    p.nonempty,
  )

  -- A list whose results all pass is returned as it is.
  filter_results_of_Passes :
      (rs : List SearchResult) → All (Passes env o) rs → filter_results env rs o ≡ rs
  unfolding filter_results
  filter_results_of_Passes [] h = refl
  filter_results_of_Passes (r ∷ rs) h =
      rw (filter_one_of_Passes r h.0, filter_map) (ap (◌∷◌ r) (filter_results_of_Passes rs h.1))

  -- Filtering a second time with the same options changes nothing.
  pub filter_results_twice :
      (rs : List SearchResult)
      → filter_results env (filter_results env rs o) o ≡ filter_results env rs o
  filter_results_twice rs =
      filter_results_of_Passes (filter_results env rs o) (filter_results-Passes rs)
