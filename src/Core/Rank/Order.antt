-- ===== src/Core/Rank/Order.antt =====
-- What the ranking does to the order of the results.
use mathlib.Core.List.{Perm}
use panshou.Prelude.{◌≡◌, Bool, true, List, retain, ◌⊎◌, arith, ◌==◌, ◌&&◌}
use panshou.Prelude.Int.{ℤ, pos_part, neg_part, leb_ℤ}
use panshou.Prelude.Sort.{IsSorted, sort_by-perm, sort_by-IsSorted, retain-sort_by}
use panshou.Env.{Env}
use panshou.Core.Model.{SearchResult, Time}
use panshou.Core.Rank.{Priorities, score_result, ranks_before, rank_results}

leb_ℤ_total : (a b : ℤ) → (leb_ℤ a b ≡ true) ⊎ (leb_ℤ b a ≡ true)
leb_ℤ_total a b = ground arith

leb_ℤ_trans : (a b c : ℤ) → leb_ℤ a b ≡ true → leb_ℤ b c ≡ true → leb_ℤ a c ≡ true
leb_ℤ_trans a b c h k = ground arith

-- Both parts of a score are those of the given one.
abbrev pub has_score : Env → Time → Priorities → ℤ → SearchResult → Bool
has_score env now ps k r =
    let s = score_result env r now ps in (pos_part s == pos_part k) && (neg_part s == neg_part k)

-- The first has a score that is not smaller.
abbrev scores_at_least : Env → Time → Priorities → SearchResult → SearchResult → Bool
scores_at_least env now ps a b = leb_ℤ (score_result env b now ps) (score_result env a now ps)

module _ (env : Env) (now : Time) (ps : Priorities) where
  same_score-ranks_before :
      (k : ℤ) (a b : SearchResult)
      → has_score env now ps k a ≡ true
      → has_score env now ps k b ≡ true
      → ranks_before env now ps a b ≡ true
  same_score-ranks_before k a b h j = ground arith

  -- The ranking keeps all results, puts no result behind one with a smaller score, and keeps the
  -- order of the results that have the same score.
  pub rank_results_stable :
      (rs : List SearchResult) (k : ℤ)
      → Perm (rank_results env rs now ps) rs
        × IsSorted (scores_at_least env now ps) (rank_results env rs now ps)
        × (retain (has_score env now ps k) (rank_results env rs now ps)
            ≡ retain (has_score env now ps k) rs)
  unfolding rank_results
  rank_results_stable rs k = (
    sort_by-perm (ranks_before env now ps) rs,
    sort_by-IsSorted (ranks_before env now ps)
        (λ a b. leb_ℤ_total (score_result env b now ps) (score_result env a now ps))
        (λ a b c h k.
          leb_ℤ_trans (score_result env c now ps) (score_result env b now ps)
            (score_result env a now ps) k h)
        rs,
    retain-sort_by (ranks_before env now ps) (has_score env now ps k) (same_score-ranks_before k)
        rs,
  )
