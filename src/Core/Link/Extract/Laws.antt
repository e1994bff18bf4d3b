-- ===== src/Core/Link/Extract/Laws.antt =====
-- What the extraction of links guarantees, whatever the regular expressions match.
use panshou.Prelude.{
  ◌≡◌, refl, sym, ◌∙◌, ap, Bool, false, not, ◌&&◌, ◌||◌, Option, none, some, List, [], ◌∷◌, arith,
  is_some, filter_map, All, Bool-cases, Option-cases, inl, inr, lookup, or_option,
}
use panshou.Prelude.Keyed.{absorb_all, has_key, Distinct, gather-absorb}
use panshou.Prelude.Keyed.Laws.{absorb_all-Distinct, absorb_all-All, has_key-absorb_all}
use panshou.Prelude.Keyed.Only.{HasOne, Distinct-HasOne, total_of_one}
use panshou.Prelude.Keyed.Totals.{total, total-absorb_all}
use panshou.Text.{Text, text_eq}
use panshou.Env.{Found, Env}
use panshou.Core.Cloud.{others, cloud_beq}
use panshou.Core.Model.{Link}
use panshou.Core.Merge.Links.{or_IsSum}
use panshou.Core.Link.Patterns.{link_pattern, url_password_pattern}
use panshou.Core.Link.Detect.{detect_cloud_type}
use panshou.Core.Link.Normalize.{normalize_url, canonical_url_key}
use panshou.Core.Link.Passwords.{extract_password}
use panshou.Core.Link.Titles.{Titles, with_titles, lines_of, titles_in, associate_work_titles}
use panshou.Core.Link.Extract.{url_key, found_link, update_found, gather_links, extract_links}

module _ (env : Env) where
  abbrev pub has_code : Link → Bool
  has_code link = is_some link.password

  update_found-key :
      (old new : Link)
      → url_key env old ≡ url_key env new
      → url_key env (update_found env old new) ≡ url_key env old
  unfolding update_found
  update_found-key old new h =
      elim (Bool-cases (
        (is_some (extract_password env [] new.url) || not (is_some old.password))
        && is_some new.password)) [
          | inl e ↦ elim (Bool-cases (env.is_match (env.regex url_password_pattern) new.url)) [
            | inl k ↦ rw (e, k) (sym h)
            | inr k ↦ rw (e, k)
          ]
          | inr e ↦ rw e
        ]

  update_found-has_code :
      (old new : Link) → has_code (update_found env old new) ≡ (has_code old || has_code new)
  unfolding update_found
  update_found-has_code old new = ground arith

  abbrev pub Known : Link → Type 0
  Known link = cloud_beq link.cloud_type others ≡ false

  update_found-Known : (old new : Link) → Known old → Known (update_found env old new)
  unfolding update_found
  update_found-Known old new h = ground arith

  found_link-Known :
      (s : Text) (found : Found) {link : Link} → found_link env s found ≡ some link → Known link
  unfolding found_link
  found_link-Known s found {link} h =
      elim (Bool-cases
        (cloud_beq (detect_cloud_type env (normalize_url env found.matched)) others)) [
          | inl e ↦ absurd (ground arith)
          | inr e ↦
              let same : detect_cloud_type env (normalize_url env found.matched) ≡ link.cloud_type =
                ground arith in
              rw (← same) e
        ]

  found_links-Known :
      (s : Text) (matches : List Found) → All Known (filter_map (found_link env s) matches)
  found_links-Known s [] = tt
  found_links-Known s (m ∷ matches) = elim (Option-cases (found_link env s m)) [
    | inl e ↦ rw (e, filter_map) (found_links-Known s matches)
    | inr (link, e) ↦ rw (e, filter_map) (found_link-Known s m e, found_links-Known s matches)
  ]

  -- The matches as links, duplicates included.
  abbrev pub occurrences : Text → List Link
  occurrences s = filter_map (found_link env s) (env.find_iter (env.regex link_pattern) s)

  gather_links-rows :
      (s : Text)
      → gather_links env s ≡ absorb_all (url_key env) (update_found env) [] (occurrences s)
  unfolding gather_links
  gather_links-rows s =
      gather-absorb (url_key env) (update_found env) update_found-key (occurrences s)

  abbrev pub some_code : Text → List Link → Bool
  some_code k links = total (url_key env) ◌||◌ false has_code k links

  -- Giving titles changes nothing but titles.
  has_key-with_titles :
      (titles : Titles) (default : Option Text) (k : Text) (links : List Link)
      → has_key (url_key env) k (with_titles env titles default links)
        ≡ has_key (url_key env) k links
  has_key-with_titles titles default k [] = refl
  has_key-with_titles titles default k (link ∷ links) =
      ap (λ b. text_eq.beq (url_key env link) k || b) (has_key-with_titles titles default k links)

  some_code-with_titles :
      (titles : Titles) (default : Option Text) (k : Text) (links : List Link)
      → some_code k (with_titles env titles default links) ≡ some_code k links
  some_code-with_titles titles default k [] = refl
  some_code-with_titles titles default k (link ∷ links) =
      ground (arith, some_code-with_titles titles default k links)

  with_titles-Distinct :
      (titles : Titles) (default : Option Text) (links : List Link)
      → Distinct (url_key env) links
      → Distinct (url_key env) (with_titles env titles default links)
  with_titles-Distinct titles default [] d = tt
  with_titles-Distinct titles default (link ∷ links) d = (
    has_key-with_titles titles default (url_key env link) links ∙ d.0,
    with_titles-Distinct titles default links d.1,
  )

  with_titles-Known :
      (titles : Titles) (default : Option Text) (links : List Link)
      → All Known links
      → All Known (with_titles env titles default links)
  with_titles-Known titles default [] h = tt
  with_titles-Known titles default (link ∷ links) h =
      (h.0, with_titles-Known titles default links h.1)

  -- No two extracted links have the same canonical URL, and each belongs to a known kind of drive.
  pub extract_links-Distinct :
      (s : Text) → Distinct (url_key env) (extract_links env s) × All Known (extract_links env s)
  unfolding extract_links associate_work_titles
  extract_links-Distinct s =
      let titles = titles_in env none (lines_of s) ([], none) in
      (
        with_titles-Distinct titles none (gather_links env s) (
            rw (gather_links-rows s) (
              absorb_all-Distinct (url_key env) (update_found env) update_found-key []
                (occurrences s) tt)),
        with_titles-Known titles none (gather_links env s) (
            rw (gather_links-rows s) (
              absorb_all-All (url_key env) (update_found env) Known
                (λ old new same h k. update_found-Known old new h) [] (occurrences s) tt
                (found_links-Known s (env.find_iter (env.regex link_pattern) s)))),
      )

  -- For every URL key, a link is extracted exactly if a match of a known drive has the key, and it
  -- has a password exactly if one was found for one of those matches.
  extract_links_keeps :
      (s k : Text)
      → (has_key (url_key env) k (extract_links env s) ≡ has_key (url_key env) k (occurrences s))
        × (some_code k (extract_links env s) ≡ some_code k (occurrences s))
  unfolding extract_links associate_work_titles
  extract_links_keeps s k =
      let titles = titles_in env none (lines_of s) ([], none) in
      (
        has_key-with_titles titles none k (gather_links env s)
            ∙ ap (has_key (url_key env) k) (gather_links-rows s)
            ∙ has_key-absorb_all (url_key env) (update_found env) update_found-key k []
                (occurrences s),
        some_code-with_titles titles none k (gather_links env s)
            ∙ ap (some_code k) (gather_links-rows s)
            ∙ total-absorb_all (url_key env) ◌||◌ false has_code (update_found env) update_found-key
                (λ old new h. update_found-has_code old new) (or_IsSum has_code) k (occurrences s),
      )

  -- A URL key that no match of a known drive has is the key of no extracted link. One that some match
  -- has is the key of exactly one extracted link, which has a password exactly if one was found for
  -- one of those matches.
  pub extract_links-HasOne :
      (s k : Text)
      → HasOne
          (url_key env)
          k
          (occurrences s)
          (extract_links env s)
          (λ link. has_code link ≡ some_code k (occurrences s))
  extract_links-HasOne s k =
      let keeps = extract_links_keeps s k in
      Distinct-HasOne (url_key env) (λ link. has_code link ≡ some_code k (occurrences s)) k
        (occurrences s) (extract_links env s) ((extract_links-Distinct s).0) keeps.0
        (λ link only.
          total_of_one (url_key env) ◌||◌ false has_code (or_IsSum has_code) k (extract_links env s)
            link only
          ∙ keeps.1)

  titled_stays :
      (a b : Option Text) (d : Text) (rest : Option Text)
      → or_option (or_option a (or_option b (some d))) rest ≡ or_option a (or_option b (some d))
  titled_stays a b d rest = ground arith

  with_titles_twice :
      (titles again : Titles) (d : Text) (default : Option Text) (links : List Link)
      → with_titles env again default (with_titles env titles (some d) links)
        ≡ with_titles env titles (some d) links
  with_titles_twice titles again d default [] = refl
  with_titles_twice titles again d default (link ∷ links) =
      let key = canonical_url_key env link.url in
      λ i.
        record link {
          work_title =
              titled_stays link.work_title (lookup key titles) d
                (or_option (lookup key again) default) i;
        }
        ∷ with_titles_twice titles again d default links i

  -- Once links have got titles with a default title, no later text or default changes them.
  pub associate_work_titles_twice :
      (links : List Link) (s later : Text) (d : Text) (default : Option Text)
      → associate_work_titles env (associate_work_titles env links s (some d)) later default
        ≡ associate_work_titles env links s (some d)
  unfolding associate_work_titles
  associate_work_titles_twice links s later d default =
      with_titles_twice (titles_in env (some d) (lines_of s) ([], none))
        (titles_in env default (lines_of later) ([], none)) d default links
