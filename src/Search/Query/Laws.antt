-- ===== src/Search/Query/Laws.antt =====
-- What the query filter leaves.
use panshou.Prelude.{
  ◌≡◌, subst, inl, inr, true, false, some, List, [], ◌∷◌, arith, if◌then◌else◌, is_empty,
  filter_map, All, retain-All, Bool-cases, Option-cases,
}
use panshou.Text.{Text, trim}
use panshou.Env.{Env, to_lowercase}
use panshou.Core.Model.{SearchResult}
use panshou.Core.Filter.{link_title}
use panshou.Search.Query.{
  Modes, should_filter, is_telegram, mentions, query_links, query_filter_one, apply_query_filter,
}

module _ (env : Env) (query : Text) (modes : Modes) where
  -- Why a result stays: its source filters by itself; or it has links, and it is a Telegram message
  -- whose text mentions the query, or each of its links has a title that does.
  pub data Stays (r : SearchResult) : Type 0 where
    by_source : should_filter modes r.source ≡ false → Stays r
    by_content :
        is_telegram r.source ≡ true
        → mentions env query r.content ≡ true
        → is_empty r.links ≡ false
        → Stays r
    by_links :
        All (λ l. mentions env query (link_title r.title l) ≡ true) r.links
        → is_empty r.links ≡ false
        → Stays r

  query_filter_one-Stays :
      (r : SearchResult) {r' : SearchResult}
      → query_filter_one env query modes r ≡ some r'
      → Stays r'
  unfolding query_filter_one
  query_filter_one-Stays r {r'} h =
      elim (Bool-cases (if is_telegram r.source then mentions env query r.content else false)) [
        | inl e ↦ elim (Bool-cases (is_empty r.links)) [
          | inl k ↦ absurd (ground arith)
          | inr k ↦
              let same : r ≡ r' = ground arith in
              subst Stays same (by_content (ground arith) (ground arith) k)
        ]
        | inr e ↦ elim (Bool-cases (should_filter modes r.source)) [
          | inl f ↦ elim (Bool-cases (is_empty (query_links env query r))) [
            | inl k ↦ absurd (ground arith)
            | inr k ↦
                let kept = record r { links = query_links env query r } in
                let same : kept ≡ r' = ground arith in
                subst Stays same
                  (by_links (retain-All (λ l. mentions env query (link_title r.title l)) r.links) k)
          ]
          | inr f ↦ let same : r ≡ r' = ground arith in subst Stays same (by_source f)
        ]
      ]

  filter_map-Stays :
      (rs : List SearchResult) → All Stays (filter_map (query_filter_one env query modes) rs)
  filter_map-Stays [] = tt
  filter_map-Stays (r ∷ rs) = elim (Option-cases (query_filter_one env query modes r)) [
    | inl e ↦ rw (e, filter_map) (filter_map-Stays rs)
    | inr (r', e) ↦ rw (e, filter_map) (query_filter_one-Stays r e, filter_map-Stays rs)
  ]

-- With a query that is not blank, every result that is left stays for one of three reasons, for the
-- trimmed query in lower case: its source filters by itself; or it has links and is a Telegram message
-- whose text mentions the query; or it has links and the title of each of them mentions the query.
pub apply_query_filter-Stays :
    (env : Env) (rs : List SearchResult) (query : Text) (modes : Modes)
    → is_empty (to_lowercase env (trim query)) ≡ false
    → All (Stays env (to_lowercase env (trim query)) modes) (apply_query_filter env rs query modes)
unfolding apply_query_filter
apply_query_filter-Stays env rs query modes h =
    rw h (filter_map-Stays env (to_lowercase env (trim query)) modes rs)
