-- ===== src/Tests/Ranking.antt =====
-- Runs of the ranking, the names of cloud types, and the detection of them.
use mathlib.Core.List.{Perm}
use panshou.Prelude.{ℕ, ◌≡◌, refl, [], ◌∷◌, retain, arith}
use panshou.Prelude.Int.{pos, ◌+ℤ◌}
use panshou.Prelude.Sort.{IsSorted}
use panshou.Text.{Text, text, trim, to_ascii_lowercase}
use panshou.Env.{to_lowercase, lower_from}
use panshou.Core.Cloud.{baidu, aliyun}
use panshou.Core.Rank.{
  Priorities, time_score, keyword_score, source_score, score_result, ranks_before, rank_results,
}
use panshou.Core.Rank.Order.{has_score, rank_results_stable}
use panshou.Core.Link.Detect.{detect_cloud_type}
use panshou.Core.Link.Detect.Sound.{IsWebUrl, IsOnDrive, detect_cloud_type-IsOnDrive}
use panshou.Core.Link.Detect.Complete.{detect_cloud_type_of_row}
use panshou.Tests.{sample_env, baidu_url, first_row, second_row}

abbrev sample_priorities : Priorities
sample_priorities = (text "zhizhen", pos 2) ∷ []

-- In nanoseconds.
abbrev two_days_later : ℕ
two_days_later = 172800000000000

first_score : score_result sample_env first_row two_days_later sample_priorities ≡ pos 1070
unfolding score_result time_score keyword_score to_lowercase lower_from source_score ◌+ℤ◌
first_score = refl

rank_results_stable_example :
    Perm
      (rank_results sample_env (second_row ∷ first_row ∷ []) two_days_later sample_priorities)
      (second_row ∷ first_row ∷ [])
    × IsSorted
        (ranks_before sample_env two_days_later sample_priorities)
        (rank_results sample_env (second_row ∷ first_row ∷ []) two_days_later sample_priorities)
    × (retain
          (has_score sample_env two_days_later sample_priorities (pos 400))
          (rank_results sample_env (second_row ∷ first_row ∷ []) two_days_later sample_priorities)
        ≡ retain
            (has_score sample_env two_days_later sample_priorities (pos 400))
            (second_row ∷ first_row ∷ []))
rank_results_stable_example =
    rank_results_stable sample_env two_days_later sample_priorities (second_row ∷ first_row ∷ [])
      (pos 400)

detect_cloud_type-IsOnDrive_example :
    (host : Text) × IsWebUrl sample_env (to_ascii_lowercase (trim baidu_url)) host
    × IsOnDrive sample_env host baidu
unfolding detect_cloud_type
detect_cloud_type-IsOnDrive_example =
    detect_cloud_type-IsOnDrive sample_env baidu_url baidu refl (λ e. absurd (ground arith))
      (λ e. absurd (ground arith)) (λ e. absurd (ground arith))

detect_cloud_type_of_row_example :
    detect_cloud_type sample_env (text " https://www.AliPan.com/s/x") ≡ aliyun
unfolding trim to_ascii_lowercase
detect_cloud_type_of_row_example =
    detect_cloud_type_of_row sample_env (text " https://www.AliPan.com/s/x") (text "www.alipan.com")
      aliyun refl refl refl (1, text "alipan.com" ∷ text "aliyundrive.com" ∷ [], refl, refl)
