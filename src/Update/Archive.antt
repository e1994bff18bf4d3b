-- ===== src/Update/Archive.antt =====
-- extract_binary of src/update/mod.rs: the program in a downloaded archive. The crates `zip`, `tar`
-- and `flate2` are arguments.
pub mod Reading
pub mod Extract
use panshou.Prelude.{
  ℕ, ◌+◌, ◌-◌, ◌/◌, ◌%◌, Bool, true, false, not, ◌&&◌, ◌||◌, Option, none, some, List, [], ◌∷◌,
  ◌++◌, ltb, ◌==◌, if◌then◌else◌, is_empty, length, take, retain,
}
use panshou.Prelude.Results.{Result, ok, err, ◌>>=◌, ◌>>◌, map_err, fail_if}
use panshou.Text.{Text, text, text_beq, ends_with, split}
use panshou.Http.Body.{Bytes, Arrival, chunk, broken}
use panshou.Update.{max_archive, io, bad_archive, invalid_entry, no_binary, UpdateResult}

pub record ZipEntry : Type 0 where
  pub name : Text
  pub is_file : Bool
  pub unix_mode : Option ℕ
  pub content : List Arrival

pub record TarEntry : Type 0 where
  pub path : Result Text Text
  pub is_file : Bool
  pub content : List Arrival

-- The entries in order; an entry may be one that cannot be read.
pub record Archives : Type 0 where
  pub open_zip : Bytes → Result Text (List (Result Text ZipEntry))
  pub open_tar : Bytes → Result Text (List (Result Text TarEntry))

-- `Path`'s equality: `/` and `.` between the names do not count, but at the front.
abbrev is_name : Text → Bool
is_name part = not (is_empty part || text_beq part (text "."))

abbrev components_of : List Text → List Text
components_of [] = []
components_of (front ∷ []) = if is_empty front then [] else front ∷ []
components_of (front ∷ parts) = front ∷ retain is_name parts

abbrev pub components : Text → List Text
components path = components_of (split b'/' path)

abbrev texts_beq : List Text → List Text → Bool
texts_beq [] [] = true
texts_beq (s ∷ ss) (t ∷ ts) = text_beq s t && texts_beq ss ts
texts_beq _ _ = false

abbrev pub same_path : Text → Text → Bool
same_path p q = texts_beq (components p) (components q)

-- `take(limit).read_to_end(..)`.
abbrev pub before : Bytes → Result Text Bytes → Result Text Bytes
before c (err e) = err e
before c (ok bytes) = ok (c ++ bytes)

abbrev pub read_to_end : (limit : ℕ) → List Arrival → Result Text Bytes
read_to_end limit [] = ok []
read_to_end limit (broken e ∷ arrivals) = if limit == 0 then ok [] else err e
read_to_end limit (chunk c ∷ arrivals) =
    let rest = read_to_end (limit - length c) arrivals in
    if limit == 0 then ok [] else before (take limit c) rest

-- Whether the program was found, and what was read of it.
abbrev pub Found : Type 0
Found = Bool × Bytes

abbrev pub take_entry : (is_expected is_valid : Bool) → List Arrival → Found → UpdateResult Found
take_entry false is_valid arrivals found = ok found
take_entry true is_valid arrivals (found, contents) = do
  fail_if (found || not is_valid) invalid_entry
  bytes ← map_err io (read_to_end (max_archive + 1) arrivals)
  ok (true, contents ++ bytes)

-- `m & 0o170000 == 0o120000`: of a mode, bits 12 to 15 say that it is a symbolic link.
abbrev pub is_symlink : Option ℕ → Bool
is_symlink none = false
is_symlink (some m) = m / 4096 % 16 == 10

module _ (expected : Text) where
  abbrev pub zip_entry : Found → ZipEntry → UpdateResult Found
  zip_entry found entry =
      take_entry (text_beq entry.name expected) (entry.is_file && not (is_symlink entry.unix_mode))
        entry.content found

  abbrev pub tar_entry : Found → TarEntry → UpdateResult Found
  tar_entry found entry = map_err bad_archive entry.path >>= λ path.
      take_entry (same_path path expected) entry.is_file entry.content found

-- The loop over the entries.
abbrev pub each_entry :
    {A : Type 0}
    → (Found → A → UpdateResult Found)
    → Found
    → List (Result Text A)
    → UpdateResult Found
each_entry body found [] = ok found
each_entry body found (entry ∷ entries) = do
  a ← map_err bad_archive entry
  next ← body found a
  each_entry body next entries

abbrev pub is_zip : (asset : Text) → Bool
is_zip asset = ends_with (text ".zip") asset

abbrev pub expected_name : (asset : Text) → Text
expected_name asset = if is_zip asset then text "pansou.exe" else text "pansou"

abbrev pub read_entries : Archives → Bytes → (asset : Text) → UpdateResult Found
read_entries archives bytes asset =
    if is_zip asset
    then map_err bad_archive (archives.open_zip bytes)
      >>= each_entry (zip_entry (expected_name asset)) (false, [])
    else map_err bad_archive (archives.open_tar bytes)
      >>= each_entry (tar_entry (expected_name asset)) (false, [])

abbrev pub checked : Found → UpdateResult Bytes
checked (found, contents) =
    fail_if (not found || is_empty contents || ltb max_archive (length contents)) no_binary
    >> ok contents

-- Up to the file that is written: its content.
unfoldable pub binary_of : Archives → Bytes → (asset : Text) → UpdateResult Bytes
binary_of archives bytes asset = read_entries archives bytes asset >>= checked
