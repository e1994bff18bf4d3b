-- ===== src/Update/Checksum.antt =====
-- verify_checksum of src/update/mod.rs, and its inputs as the tool `sha256sum` prints them.
use panshou.Prelude.{ℕ, not, Bool, List, [], ◌∷◌, ◌==◌, if◌then◌else◌, is_empty, retain}
use panshou.Prelude.Results.{ok, err}
use panshou.Text.{Text, text_beq, is_whitespace, trim_start_matches, to_ascii_lowercase, add_first}
use panshou.Env.{Env}
use panshou.Core.Link.Titles.{lines_of}
use panshou.Http.Body.{Bytes}
use panshou.Update.{UpdateResult, checksum_entries, checksum_differs}

-- `str::split_whitespace`: the parts between white space that are not empty.
abbrev pub split_where : (ℕ → Bool) → Text → List Text
split_where p [] = [] ∷ []
split_where p (c ∷ s) = let parts = split_where p s in if p c then [] ∷ parts else add_first c parts

abbrev pub is_part : Text → Bool
is_part part = not (is_empty part)

unfoldable pub split_whitespace : Text → List Text
unfolding is_whitespace
split_whitespace s = retain is_part (split_where is_whitespace s)

abbrev pub add_checksum : Text → List Text → List Text → List Text
add_checksum name (checksum ∷ file ∷ columns) rest =
    if text_beq (trim_start_matches (λ c. c == b'*') file) name then checksum ∷ rest else rest
add_checksum name columns rest = rest

-- The checksums of the lines for a file.
unfoldable pub checksums_for : Text → List Text → List Text
unfolding split_whitespace
checksums_for name [] = []
checksums_for name (line ∷ lines) =
    let rest = checksums_for name lines in add_checksum name (split_whitespace line) rest

abbrev pub compare : Env → Bytes → Text → List Text → UpdateResult (Unit {0})
unfolding to_ascii_lowercase
compare env bytes name (checksum ∷ []) =
    if text_beq (to_ascii_lowercase checksum) (to_ascii_lowercase (env.sha256_hex bytes))
    then ok tt
    else err (checksum_differs name)
compare env bytes name checksums = err (checksum_entries name)

unfoldable pub verify_checksum : Env → Bytes → (sums name : Text) → UpdateResult (Unit {0})
unfolding checksums_for
verify_checksum env bytes sums name = compare env bytes name (checksums_for name (lines_of sums))
