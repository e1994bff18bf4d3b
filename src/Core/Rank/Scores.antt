-- ===== src/Core/Rank/Scores.antt =====
-- The range of the scores, and that a newer result never scores less.
use panshou.Prelude.{
  unwrap_or, lookup, ℕ, ◌-◌, ◌*◌, ◌/◌, ◌≤◌, Option, none, some, List, [], ◌∷◌, arith,
}
use panshou.Prelude.Int.{ℤ, pos, negsuc, ◌≤ℤ◌, int_laws}
use panshou.Text.{Text, text_eq}
use panshou.Env.{Env, to_lowercase}
use panshou.Core.Model.{Source, telegram, provider, SearchResult, Time}
use panshou.Core.Rank.{
  priority_keywords, keyword_score_from, keyword_score, provider_score, time_score, source_score,
  score_result, Priorities, age_score, nanos_per_second,
}

keyword_score_from-le :
    (lower : Text) (words : List Text) (left : ℕ) → keyword_score_from lower words left ≤ left * 70
keyword_score_from-le lower [] left = omega arith
keyword_score_from-le lower (word ∷ words) left =
    ground (arith, keyword_score_from-le lower words (left - 1))

keyword_score-le : (env : Env) (title : Text) → keyword_score env title ≤ 490
unfolding keyword_score
keyword_score-le env title = keyword_score_from-le (to_lowercase env title) priority_keywords 7

age_score-le : (days : ℕ) → age_score days ≤ 500
age_score-le days = ground arith

time_score-le : (d : Option Time) (now : Time) → time_score d now ≤ 500
unfolding time_score
time_score-le none now = omega arith
time_score-le (some d) now = age_score-le ((now - d) / nanos_per_second / 86400)

provider_score_bounds : (p : ℤ) → (negsuc 199 ≤ℤ provider_score p) × (provider_score p ≤ℤ pos 1000)
unfolding provider_score
provider_score_bounds (pos n) = ground arith
provider_score_bounds (negsuc n) = ground arith

source_score_bounds :
    (ps : Priorities) (s : Source)
    → (negsuc 199 ≤ℤ source_score ps s) × (source_score ps s ≤ℤ pos 1000)
unfolding source_score
source_score_bounds ps (provider name) = provider_score_bounds (unwrap_or (lookup name ps) (pos 3))
source_score_bounds ps (telegram channel) = ground arith

-- The score of every result lies between -200 and 1990, so its sums stay far inside `i64`.
pub score_result_bounds :
    (env : Env) (r : SearchResult) (now : Time) (ps : Priorities)
    → (negsuc 199 ≤ℤ score_result env r now ps) × (score_result env r now ps ≤ℤ pos 1990)
unfolding score_result
score_result_bounds env r now ps = omega (
  int_laws,
  source_score_bounds ps r.source,
  time_score-le r.datetime now,
  keyword_score-le env r.title,
)

age_score_antitone : (a b : ℕ) → a ≤ b → age_score b ≤ age_score a
age_score_antitone a b h = ground arith

-- Of two dated results the newer never gets the smaller time score, whatever the present time.
pub time_score_mono :
    (older newer now : Time)
    → older ≤ newer
    → time_score (some older) now ≤ time_score (some newer) now
unfolding time_score
time_score_mono older newer now h =
    let a = (now - newer) / nanos_per_second in
    let b = (now - older) / nanos_per_second in
    let seconds : a ≤ b = omega arith in age_score_antitone (a / 86400) (b / 86400) (omega arith)
