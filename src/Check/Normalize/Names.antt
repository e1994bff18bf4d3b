-- ===== src/Check/Normalize/Names.antt =====
-- The names of checkable cloud types read back, and the two conversions fit together.
use panshou.Prelude.{◌≡◌, refl}
use panshou.Text.{text}
use panshou.Check.Normalize.{
  CheckCloudType, aliyun, unsupported, from_cloud, to_cloud, to_string, ok, err, from_str,
}

-- What the printed name parses to: the type itself, but an error for `unsupported`.
abbrev pub Reads : CheckCloudType → Type 0
Reads unsupported =
    from_str (to_string unsupported) ≡ err (text "unsupported cloud type: unsupported")
Reads c = from_str (to_string c) ≡ ok c

-- The printed name of every cloud type that can be checked parses back to it, that of `unsupported`
-- is an error, and a checkable type is unchanged by the way to the search's types and back.
pub check_from_str-to_string : (c : CheckCloudType) → Reads c × (from_cloud (to_cloud c) ≡ c)
unfolding from_str to_string
check_from_str-to_string aliyun = (refl, refl)
check_from_str-to_string _ = (refl, refl)
