-- ===== src/Check/Normalize.antt =====
-- src/check/normalize.rs: the cloud types that can be checked, and the canonical form of a share link.
pub mod Names
use panshou.Prelude.{
  ℕ, Bool, true, false, not, ◌&&◌, ◌||◌, Option, none, some, List, [], ◌∷◌, ◌++◌, if◌then◌else◌,
  ◌==◌, ltb, is_empty, any, retain, filter_option,
}
use panshou.Prelude.Sort.{sort_by}
use panshou.Text.{Text, text, text_beq, trim, to_ascii_lowercase, starts_with}
use panshou.Env.{Env}
use panshou.Core.Cloud.{CloudType, one_of}
use panshou.Core.Link.Detect.{detect_cloud_type}

pub data CheckCloudType : Type 0 where
  aliyun quark uc baidu tianyi pan123 xunlei one15 mobile unsupported : CheckCloudType

-- `From<CloudType>`; the last arm takes all the other types.
abbrev pub from_cloud : CloudType → CheckCloudType
from_cloud CloudType.aliyun = aliyun
from_cloud CloudType.quark = quark
from_cloud CloudType.uc = uc
from_cloud CloudType.baidu = baidu
from_cloud CloudType.tianyi = tianyi
from_cloud CloudType.pan123 = pan123
from_cloud CloudType.xunlei = xunlei
from_cloud CloudType.one15 = one15
from_cloud CloudType.mobile = mobile
from_cloud _ = unsupported

abbrev pub to_cloud : CheckCloudType → CloudType
to_cloud aliyun = CloudType.aliyun
to_cloud quark = CloudType.quark
to_cloud uc = CloudType.uc
to_cloud baidu = CloudType.baidu
to_cloud tianyi = CloudType.tianyi
to_cloud pan123 = CloudType.pan123
to_cloud xunlei = CloudType.xunlei
to_cloud one15 = CloudType.one15
to_cloud mobile = CloudType.mobile
to_cloud unsupported = CloudType.others

unfoldable pub to_string : CheckCloudType → Text
to_string aliyun = text "aliyun"
to_string quark = text "quark"
to_string uc = text "uc"
to_string baidu = text "baidu"
to_string tianyi = text "tianyi"
to_string pan123 = text "123"
to_string xunlei = text "xunlei"
to_string one15 = text "115"
to_string mobile = text "mobile"
to_string unsupported = text "unsupported"

pub data ParseResult : Type 0 where
  ok : CheckCloudType → ParseResult
  err : Text → ParseResult

unfoldable pub parse_name : Text → ParseResult
parse_name s =
    if one_of (text "aliyun" ∷ text "alipan" ∷ []) s
    then ok aliyun
    else if one_of (text "quark" ∷ []) s
    then ok quark
    else if one_of (text "uc" ∷ []) s
    then ok uc
    else if one_of (text "baidu" ∷ []) s
    then ok baidu
    else if one_of (text "tianyi" ∷ text "189" ∷ []) s
    then ok tianyi
    else if one_of (text "123" ∷ text "pan123" ∷ []) s
    then ok pan123
    else if one_of (text "xunlei" ∷ []) s
    then ok xunlei
    else if one_of (text "115" ∷ text "one15" ∷ []) s
    then ok one15
    else if one_of (text "mobile" ∷ text "139" ∷ []) s
    then ok mobile
    else err (text "unsupported cloud type: " ++ s)

unfoldable pub from_str : Text → ParseResult
unfolding parse_name trim to_ascii_lowercase
from_str value = parse_name (to_ascii_lowercase (trim value))

unfoldable pub detect_check_cloud_type : Env → Text → CheckCloudType
unfolding detect_cloud_type
detect_check_cloud_type env raw = from_cloud (detect_cloud_type env raw)

abbrev is_tianyi : CheckCloudType → Bool
is_tianyi tianyi = true
is_tianyi _ = false

abbrev is_mobile : CheckCloudType → Bool
is_mobile mobile = true
is_mobile _ = false

-- The drives whose links carry the password as `pwd`.
abbrev takes_pwd : CheckCloudType → Bool
takes_pwd baidu = true
takes_pwd quark = true
takes_pwd uc = true
takes_pwd _ = false

-- `<=` on texts and on pairs of them. (The order of UTF-8 bytes is that of the code points.)
abbrev text_leb : Text → Text → Bool
text_leb [] t = true
text_leb (a ∷ s) [] = false
text_leb (a ∷ s) (b ∷ t) = ltb a b || (a == b && text_leb s t)

abbrev pair_leb : Text × Text → Text × Text → Bool
pair_leb (k, v) (j, w) = if text_beq k j then text_leb v w else text_leb k j

module _ (env : Env) where
  abbrev move_fragment : CheckCloudType → env.Url → env.Url
  move_fragment cloud url =
      if is_tianyi cloud && not (starts_with (text "/t/") (env.path url))
      then elim (filter_option (λ f. starts_with (text "/t/") f) (env.fragment url)) [
        | none ↦ url
        | some f ↦ env.set_path f url
      ]
      else url

  abbrev drop_tracking : CheckCloudType → env.Url → env.Url
  drop_tracking cloud url = if is_mobile cloud then url else env.set_fragment none url

  abbrev add_pwd : CheckCloudType → Option Text → env.Url → env.Url
  add_pwd cloud password url = elim (filter_option (λ p. not (is_empty p)) password) [
    | none ↦ url
    | some p ↦
        if takes_pwd cloud && not (any (λ q. text_beq q.0 (text "pwd")) (env.query_pairs url))
        then env.extend_pairs ((text "pwd", p) ∷ []) url
        else url
  ]

  abbrev sort_query : env.Url → env.Url
  sort_query url =
      let query = sort_by pair_leb (env.query_pairs url) in
      let cleared = env.clear_query url in
      if is_empty query then cleared else env.extend_pairs query cleared

  -- The `?` on the host and on `set_host`.
  abbrev with_lower_host : env.Url → Option env.Url
  with_lower_host url = elim (env.host_str url) [
    | none ↦ none
    | some host ↦ env.set_host (to_ascii_lowercase host) url
  ]

  unfoldable pub normalize_share_link : CheckCloudType → Text → Option Text → Option Text
  unfolding trim sort_by
  normalize_share_link cloud raw password = elim (env.parse_url (trim raw)) [
    | none ↦ none
    | some parsed ↦ elim (with_lower_host parsed) [
      | none ↦ none
      | some url ↦ some (
          env.url_text
            (sort_query (add_pwd cloud password (drop_tracking cloud (move_fragment cloud url)))))
    ]
  ]

  -- `rfind(|s| !s.is_empty())`: the last one that is not empty.
  abbrev last_nonempty : List Text → Option Text
  last_nonempty [] = none
  last_nonempty (s ∷ ss) = elim (last_nonempty ss) [
    | none ↦ if is_empty s then none else some s
    | some t ↦ some t
  ]

  unfoldable last_path_segment : Text → Option Text
  last_path_segment raw = elim (env.parse_url raw) [
    | none ↦ none
    | some url ↦ elim (env.path_segments url) [ none ↦ none | some ss ↦ last_nonempty ss ]
  ]
