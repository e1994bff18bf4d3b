-- ===== src/Core/Link/Detect.antt =====
-- `detect_cloud_type` of src/core/link.rs.
pub mod Sound
pub mod Complete
use panshou.Prelude.{
  Bool, true, false, ◌||◌, Option, none, some, List, [], ◌∷◌, ◌++◌, if◌then◌else◌, any,
}
use panshou.Text.{Text, text, text_beq, trim, to_ascii_lowercase, starts_with, ends_with}
use panshou.Env.{Env}
use panshou.Core.Cloud.{
  CloudType, baidu, aliyun, quark, guangya, tianyi, uc, mobile, one15, pikpak, weiyun, lanzou,
  xunlei, pan123, magnet, ed2k, others,
}

-- `host == domain || host.ends_with(".domain")`.
abbrev pub is_host_of : Text → Text → Bool
is_host_of host domain = text_beq host domain || ends_with (text "." ++ domain) host

abbrev pub in_domains : List Text → Text → Bool
in_domains domains host = any (λ d. is_host_of host d) domains

-- The tests of the source in their order, each with the type that it returns.
abbrev pub domain_table : List (List Text × CloudType)
domain_table =
    (text "pan.baidu.com" ∷ [], baidu)
    ∷ (text "alipan.com" ∷ text "aliyundrive.com" ∷ [], aliyun)
    ∷ (text "pan.quark.cn" ∷ [], quark)
    ∷ (text "guangyapan.com" ∷ [], guangya)
    ∷ (text "cloud.189.cn" ∷ [], tianyi)
    ∷ (text "drive.uc.cn" ∷ text "fast.uc.cn" ∷ [], uc)
    ∷ (text "yun.139.com" ∷ text "caiyun.139.com" ∷ text "caiyun.feixin.10086.cn" ∷ [], mobile)
    ∷ (text "115.com" ∷ text "115cdn.com" ∷ text "anxia.com" ∷ [], one15)
    ∷ (text "mypikpak.com" ∷ [], pikpak)
    ∷ (text "pan.xunlei.com" ∷ [], xunlei)
    ∷ (
      text "123684.com"
          ∷ text "123685.com"
          ∷ text "123865.com"
          ∷ text "123912.com"
          ∷ text "123pan.com"
          ∷ text "123pan.cn"
          ∷ text "123592.com"
          ∷ [],
      pan123,
    )
    ∷ (text "weiyun.com" ∷ [], weiyun)
    ∷ (
      text "lanzou.com"
          ∷ text "lanzoui.com"
          ∷ text "lanzoux.com"
          ∷ text "lanzoub.com"
          ∷ text "lanzouc.com"
          ∷ text "lanzoue.com"
          ∷ text "lanzouf.com"
          ∷ text "lanzoug.com"
          ∷ text "lanzouh.com"
          ∷ text "lanzouj.com"
          ∷ text "lanzouk.com"
          ∷ text "lanzoul.com"
          ∷ text "lanzoum.com"
          ∷ text "lanzoun.com"
          ∷ text "lanzoup.com"
          ∷ text "lanzouq.com"
          ∷ text "lanzous.com"
          ∷ text "lanzout.com"
          ∷ text "lanzouu.com"
          ∷ text "lanzouv.com"
          ∷ text "lanzouw.com"
          ∷ text "lanzouy.com"
          ∷ text "lanzouz.com"
          ∷ [],
      lanzou,
    )
    ∷ []

-- The chain of `if … return`.
pub type_of_host : List (List Text × CloudType) → Text → CloudType
type_of_host [] host = others
type_of_host ((domains, c) ∷ table) host =
    if in_domains domains host then c else type_of_host table host

module _ (env : Env) where
  -- The part after the prefixes: the scheme and the host of a URL that parses.
  abbrev pub host_to_test : Text → Option Text
  host_to_test value = elim (env.parse_url value) [
    | none ↦ none
    | some url ↦
        if text_beq (env.scheme url) (text "http") || text_beq (env.scheme url) (text "https")
        then env.host_str url
        else none
  ]

  unfoldable pub detect_cloud_type : Text → CloudType
  unfolding type_of_host trim to_ascii_lowercase
  detect_cloud_type raw_url =
      let value = to_ascii_lowercase (trim raw_url) in
      if starts_with (text "magnet:") value
      then magnet
      else if starts_with (text "ed2k:") value
      then ed2k
      else elim (host_to_test value) [ none ↦ others | some host ↦ type_of_host domain_table host ]
