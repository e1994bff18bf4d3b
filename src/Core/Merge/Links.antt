-- ===== src/Core/Merge/Links.antt =====
-- Flattening into links: one row for a key, the newest date, no password lost, only the cloud types
-- that are asked for.
use panshou.Prelude.{
  ◌≡◌, refl, sym, ◌∙◌, ap, Bool, true, false, not, ◌&&◌, ◌||◌, Option, none, some, List, [], ◌∷◌,
  arith, if◌then◌else◌, is_empty, filter_map, is_some, All, All-append, Bool-cases, Option-cases,
  inl, inr,
}
use panshou.Prelude.Keyed.{absorb_all, has_key, Distinct, gather-absorb}
use panshou.Prelude.Keyed.Laws.{absorb_all-Distinct, absorb_all-All, has_key-absorb_all}
use panshou.Prelude.Keyed.Only.{HasOne, Distinct-HasOne, total_of_one}
use panshou.Prelude.Keyed.Totals.{IsSum, total, total-absorb_all}
use panshou.Text.{Text, text_eq}
use panshou.Env.{Env}
use panshou.Core.Cloud.{CloudType}
use panshou.Core.Model.{Time, Link, SearchResult, MergedLink}
use panshou.Core.Filter.{in_types}
use panshou.Core.Merge.{
  older, update_link, misses_keyword, note_of, candidate_of, candidates, lower_keyword, link_key,
  merge_links,
}

-- The later of two dates, where `None` is before all.
abbrev pub later : Option Time → Option Time → Option Time
later a b = if older a b then b else a

abbrev pub has_password : MergedLink → Bool
has_password l = is_some l.password

abbrev date_of : MergedLink → Option Time
date_of l = l.datetime

later_assoc : (a b c : Option Time) → later (later a b) c ≡ later a (later b c)
later_assoc a b c = ground arith

later-none : (a : Option Time) → (later none a ≡ a) × (later a none ≡ a)
later-none none = (refl, refl)
later-none (some a) = (refl, refl)

later_swap : (a b c : Option Time) → later (later a b) c ≡ later (later a c) b
later_swap a b c = ground arith

later-IsSum : IsSum later none date_of
later-IsSum = record {
  assoc = later_assoc;
  unit_left = λ a. (later-none a).0;
  unit_right = λ a. (later-none a).1;
  swap = λ x b c. later_swap x.datetime b c;
}

pub or_IsSum {ℓ} : {A : Type ℓ} (p : A → Bool) → IsSum ◌||◌ false p
or_IsSum p = record {
  assoc = λ a b c. ground arith;
  unit_left = λ a. refl;
  unit_right = λ a. ground arith;
  swap = λ x b c. ground arith;
}

update_link-datetime :
    (old new : MergedLink) → (update_link old new).datetime ≡ later old.datetime new.datetime
unfolding update_link
update_link-datetime old new = ground arith

update_link-has_password :
    (old new : MergedLink)
    → has_password (update_link old new) ≡ (has_password old || has_password new)
unfolding update_link
update_link-has_password old new = ground arith

module _ (env : Env) where
  update_link-key :
      (old new : MergedLink)
      → link_key env old ≡ link_key env new
      → link_key env (update_link old new) ≡ link_key env old
  unfolding update_link
  update_link-key old new h = elim (Bool-cases (older old.datetime new.datetime)) [
    | inl e ↦ rw e (sym h)
    | inr e ↦ rw e (elim (Bool-cases (not (is_some old.password) && is_some new.password)) [
      | inl k ↦ rw k
      | inr k ↦ rw k
    ])
  ]

  -- The reference description: every candidate updates the row with its key, or is appended.
  abbrev pub link_rows : List MergedLink → List MergedLink
  link_rows ls = absorb_all (link_key env) update_link [] ls

  -- The loops with the table of positions compute the reference description: of the candidates, in
  -- order, each updates the row with its URL key, or is appended if there is none.
  pub merge_links-rows :
      (rs : List SearchResult) (keyword : Option Text) (clouds : List CloudType)
      → merge_links env rs keyword clouds
        ≡ link_rows (candidates env (lower_keyword env keyword) clouds rs)
  unfolding merge_links
  merge_links-rows rs keyword clouds =
      gather-absorb (link_key env) update_link update_link-key
        (candidates env (lower_keyword env keyword) clouds rs)

  -- No two merged links have the same canonical URL.
  pub merge_links-Distinct :
      (rs : List SearchResult) (keyword : Option Text) (clouds : List CloudType)
      → Distinct (link_key env) (merge_links env rs keyword clouds)
  merge_links-Distinct rs keyword clouds = rw (merge_links-rows rs keyword clouds) (
      absorb_all-Distinct (link_key env) update_link update_link-key []
        (candidates env (lower_keyword env keyword) clouds rs) tt)

  abbrev pub newest : Text → List MergedLink → Option Time
  newest k ls = total (link_key env) later none date_of k ls

  abbrev pub some_password : Text → List MergedLink → Bool
  some_password k ls = total (link_key env) ◌||◌ false has_password k ls

  -- For every URL key the merged row has the newest date of its candidates, and it has a password
  -- exactly if one of them has one.
  merge_links_keeps :
      (rs : List SearchResult) (keyword : Option Text) (clouds : List CloudType) (k : Text)
      → (newest k (merge_links env rs keyword clouds)
          ≡ newest k (candidates env (lower_keyword env keyword) clouds rs))
        × (some_password k (merge_links env rs keyword clouds)
            ≡ some_password k (candidates env (lower_keyword env keyword) clouds rs))
  merge_links_keeps rs keyword clouds k =
      let found = candidates env (lower_keyword env keyword) clouds rs in
      (
        ap (newest k) (merge_links-rows rs keyword clouds)
            ∙ total-absorb_all (link_key env) later none date_of update_link update_link-key
                (λ old new h. update_link-datetime old new) later-IsSum k found,
        ap (some_password k) (merge_links-rows rs keyword clouds)
            ∙ total-absorb_all (link_key env) ◌||◌ false has_password update_link update_link-key
                (λ old new h. update_link-has_password old new) (or_IsSum has_password) k found,
      )

  -- A URL key that no candidate has is the key of no merged link. One that some candidate has is the
  -- key of exactly one merged link, which has the newest date of the candidates with the key, and a
  -- password exactly if one of them has one.
  pub merge_links-HasOne :
      (rs : List SearchResult) (keyword : Option Text) (clouds : List CloudType) (k : Text)
      → let found = candidates env (lower_keyword env keyword) clouds rs in
        HasOne
          (link_key env)
          k
          found
          (merge_links env rs keyword clouds)
          (λ row. (row.datetime ≡ newest k found) × (has_password row ≡ some_password k found))
  merge_links-HasOne rs keyword clouds k =
      let found = candidates env (lower_keyword env keyword) clouds rs in
      let rows = merge_links env rs keyword clouds in
      let keeps = merge_links_keeps rs keyword clouds k in
      Distinct-HasOne (link_key env)
        (λ row. (row.datetime ≡ newest k found) × (has_password row ≡ some_password k found)) k
        found rows (merge_links-Distinct rs keyword clouds)
        (ap (has_key (link_key env) k) (merge_links-rows rs keyword clouds)
          ∙ has_key-absorb_all (link_key env) update_link update_link-key k [] found)
        (λ row only. (
          total_of_one (link_key env) later none date_of later-IsSum k rows row only ∙ keeps.0,
          total_of_one (link_key env) ◌||◌ false has_password (or_IsSum has_password) k rows row
                only
              ∙ keeps.1,
        ))

  -- The type of a merged link is one that is asked for, if any is.
  abbrev pub HasType : List CloudType → MergedLink → Type 0
  HasType clouds l = is_empty clouds || in_types clouds l.cloud_type ≡ true

  candidate_of-HasType :
      (keyword : Option Text) (clouds : List CloudType) (r : SearchResult) (l : Link)
      {m : MergedLink}
      → candidate_of env keyword clouds r l ≡ some m
      → HasType clouds m
  unfolding candidate_of
  candidate_of-HasType keyword clouds r l {m} h =
      elim (Bool-cases (is_empty clouds || in_types clouds l.cloud_type)) [
        | inl e ↦ elim (Bool-cases (misses_keyword env keyword (note_of env r l))) [
          | inl k ↦ absurd (ground arith)
          | inr k ↦ let same : l.cloud_type ≡ m.cloud_type = ground arith in rw (← same) e
        ]
        | inr e ↦ absurd (ground arith)
      ]

  links-HasType :
      (keyword : Option Text) (clouds : List CloudType) (r : SearchResult) (ls : List Link)
      → All (HasType clouds) (filter_map (candidate_of env keyword clouds r) ls)
  links-HasType keyword clouds r [] = tt
  links-HasType keyword clouds r (l ∷ ls) =
      elim (Option-cases (candidate_of env keyword clouds r l)) [
        | inl e ↦ rw (e, filter_map) (links-HasType keyword clouds r ls)
        | inr (m, e) ↦
            rw (e, filter_map)
              (candidate_of-HasType keyword clouds r l e, links-HasType keyword clouds r ls)
      ]

  candidates-HasType :
      (keyword : Option Text) (clouds : List CloudType) (rs : List SearchResult)
      → All (HasType clouds) (candidates env keyword clouds rs)
  unfolding candidates
  candidates-HasType keyword clouds [] = tt
  candidates-HasType keyword clouds (r ∷ rs) =
      All-append (HasType clouds) (filter_map (candidate_of env keyword clouds r) r.links)
        (candidates env keyword clouds rs) (links-HasType keyword clouds r r.links)
        (candidates-HasType keyword clouds rs)

  update_link-HasType :
      (clouds : List CloudType) (old new : MergedLink)
      → HasType clouds old
      → HasType clouds new
      → HasType clouds (update_link old new)
  unfolding update_link
  update_link-HasType clouds old new h k = ground arith

  -- If cloud types are asked for, every merged link has one of them.
  pub merge_links-HasType :
      (rs : List SearchResult) (keyword : Option Text) (clouds : List CloudType)
      → All (HasType clouds) (merge_links env rs keyword clouds)
  merge_links-HasType rs keyword clouds = rw (merge_links-rows rs keyword clouds) (
      absorb_all-All (link_key env) update_link (HasType clouds)
        (λ old new same. update_link-HasType clouds old new) []
        (candidates env (lower_keyword env keyword) clouds rs) tt
        (candidates-HasType (lower_keyword env keyword) clouds rs))
