-- ===== src/Core/Rank.antt =====
-- src/core/rank.rs: the score of a result, and the ranking by it.
pub mod Scores
pub mod Order
use panshou.Prelude.{
  ℕ, zero, suc, ◌-◌, ◌*◌, ◌/◌, Bool, Option, none, some, List, [], ◌∷◌, ltb, leb, ◌==◌,
  if◌then◌else◌, lookup, unwrap_or,
}
use panshou.Prelude.Int.{ℤ, pos, negsuc, ◌+ℤ◌, leb_ℤ, pos_part, neg_part}
use panshou.Prelude.Sort.{sort_by}
use panshou.Text.{Text, text, contains, text_eq}
use panshou.Env.{Env, to_lowercase}
use panshou.Core.Model.{Source, telegram, provider, SearchResult, Time}

abbrev pub priority_keywords : List Text
priority_keywords =
    text "合集" ∷ text "系列" ∷ text "全" ∷ text "完" ∷ text "最新" ∷ text "附" ∷ text "complete" ∷ []

-- The keywords that are left, longest list first: `(len - position) * 70` of the first that occurs.
abbrev pub keyword_score_from : Text → List Text → ℕ → ℕ
keyword_score_from lower [] left = 0
keyword_score_from lower (word ∷ words) left =
    if contains word lower then left * 70 else keyword_score_from lower words (left - 1)

unfoldable pub keyword_score : Env → Text → ℕ
keyword_score env title = keyword_score_from (to_lowercase env title) priority_keywords 7

-- The arms of the match: 1, 2, 3, at least 4, and the rest.
pub provider_score : ℤ → ℤ
provider_score (pos n) =
    if n == 1
    then pos 1000
    else if n == 2
    then pos 500
    else if n == 3
    then pos 0
    else if leb 4 n
    then negsuc 199
    else pos 0
provider_score (negsuc n) = pos 0

abbrev pub nanos_per_second : ℕ
nanos_per_second = 1000000000

-- `num_seconds().max(0)` is 0 for a time after `now`, as the difference on ℕ is.
abbrev pub age_score : ℕ → ℕ
age_score age_days =
    if leb age_days 1
    then 500
    else if leb age_days 3
    then 400
    else if leb age_days 7
    then 300
    else if leb age_days 30
    then 200
    else if leb age_days 90
    then 100
    else if leb age_days 365
    then 50
    else 20

unfoldable pub time_score : Option Time → Time → ℕ
time_score none now = 0
time_score (some datetime) now = age_score ((now - datetime) / nanos_per_second / 86400)

-- `HashMap<String, i32>`.
abbrev pub Priorities : Type 0
Priorities = List (Text × ℤ)

unfoldable pub source_score : Priorities → Source → ℤ
unfolding lookup provider_score
source_score priorities (provider name) =
    provider_score (unwrap_or (lookup name priorities) (pos 3))
source_score priorities (telegram channel) = pos 0

unfoldable pub score_result : Env → SearchResult → Time → Priorities → ℤ
score_result env result now priorities =
    pos (time_score result.datetime now)
    +ℤ pos (keyword_score env result.title)
    +ℤ source_score priorities result.source

-- `left` may stand before `right` when `score(right).cmp(score(left))` is not greater.
abbrev pub ranks_before : Env → Time → Priorities → SearchResult → SearchResult → Bool
ranks_before env now priorities left right =
    leb_ℤ (score_result env right now priorities) (score_result env left now priorities)

unfoldable pub rank_results : Env → List SearchResult → Time → Priorities → List SearchResult
rank_results env results now priorities = sort_by (ranks_before env now priorities) results
