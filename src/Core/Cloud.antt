-- ===== src/Core/Cloud.antt =====
-- src/core/cloud.rs: the kinds of cloud drives, their names and the parser of names.
pub mod Names
use panshou.Prelude.{ℕ, ◌==◌, Bool, true, false, ◌||◌, List, [], ◌∷◌, if◌then◌else◌, any}
use panshou.Text.{Text, text, text_beq, trim, to_ascii_lowercase}
use panshou.Core.Error.{ParseError, unknown_cloud_type}

pub data CloudType : Type 0 where
  baidu aliyun quark guangya tianyi uc mobile one15 pikpak weiyun lanzou xunlei pan123 magnet ed2k
        others :
      CloudType

abbrev pub all_types : List CloudType
all_types =
    baidu ∷ aliyun ∷ quark ∷ guangya ∷ tianyi ∷ uc ∷ mobile ∷ one15 ∷ pikpak ∷ weiyun ∷ lanzou
    ∷ xunlei ∷ pan123 ∷ magnet ∷ ed2k ∷ others ∷ []

-- The derived `PartialEq` compares the discriminants.
abbrev pub discriminant : CloudType → ℕ
discriminant baidu = 0
discriminant aliyun = 1
discriminant quark = 2
discriminant guangya = 3
discriminant tianyi = 4
discriminant uc = 5
discriminant mobile = 6
discriminant one15 = 7
discriminant pikpak = 8
discriminant weiyun = 9
discriminant lanzou = 10
discriminant xunlei = 11
discriminant pan123 = 12
discriminant magnet = 13
discriminant ed2k = 14
discriminant others = 15

abbrev pub cloud_beq : CloudType → CloudType → Bool
cloud_beq a b = discriminant a == discriminant b

-- `Display`.
unfoldable pub to_string : CloudType → Text
to_string baidu = text "baidu"
to_string aliyun = text "aliyun"
to_string quark = text "quark"
to_string guangya = text "guangya"
to_string tianyi = text "tianyi"
to_string uc = text "uc"
to_string mobile = text "mobile"
to_string one15 = text "115"
to_string pikpak = text "pikpak"
to_string weiyun = text "weiyun"
to_string lanzou = text "lanzou"
to_string xunlei = text "xunlei"
to_string pan123 = text "123"
to_string magnet = text "magnet"
to_string ed2k = text "ed2k"
to_string others = text "others"

pub data ParseResult : Type 0 where
  ok : CloudType → ParseResult
  err : ParseError → ParseResult

-- A text is one of the literals of a match arm.
abbrev pub one_of : List Text → Text → Bool
one_of words s = any (λ w. text_beq w s) words

-- The match of `from_str`, on the trimmed text in lower case.
unfoldable pub parse_name : Text → ParseResult
parse_name s =
    if one_of (text "baidu" ∷ text "baidupan" ∷ []) s
    then ok baidu
    else if one_of (text "aliyun" ∷ text "alipan" ∷ text "aliyundrive" ∷ []) s
    then ok aliyun
    else if one_of (text "quark" ∷ []) s
    then ok quark
    else if one_of (text "guangya" ∷ text "guangyapan" ∷ []) s
    then ok guangya
    else if one_of (text "tianyi" ∷ text "189" ∷ []) s
    then ok tianyi
    else if one_of (text "uc" ∷ []) s
    then ok uc
    else if one_of (text "mobile" ∷ text "139" ∷ text "caiyun" ∷ []) s
    then ok mobile
    else if one_of (text "115" ∷ text "one15" ∷ []) s
    then ok one15
    else if one_of (text "pikpak" ∷ []) s
    then ok pikpak
    else if one_of (text "weiyun" ∷ []) s
    then ok weiyun
    else if one_of (text "lanzou" ∷ []) s
    then ok lanzou
    else if one_of (text "xunlei" ∷ []) s
    then ok xunlei
    else if one_of (text "123" ∷ text "pan123" ∷ text "123pan" ∷ []) s
    then ok pan123
    else if one_of (text "magnet" ∷ []) s
    then ok magnet
    else if one_of (text "ed2k" ∷ []) s
    then ok ed2k
    else if one_of (text "other" ∷ text "others" ∷ text "unknown" ∷ []) s
    then ok others
    else err (unknown_cloud_type s)

-- `FromStr`.
unfoldable pub from_str : Text → ParseResult
unfolding parse_name trim to_ascii_lowercase
from_str value = parse_name (to_ascii_lowercase (trim value))
