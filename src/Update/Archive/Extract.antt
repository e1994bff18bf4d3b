-- ===== src/Update/Archive/Extract.antt =====
-- extract_binary of src/update/mod.rs: which archives hold a program, and which one.
use panshou.Prelude.{
  ◌+◌, ◌≤◌, ◌≡◌, refl, ◌∙◌, ap, ◌↔◌, Bool, true, false, not, ◌&&◌, List, [], ◌∷◌, map, arith,
  if◌then◌else◌, is_empty, length,
}
use panshou.Prelude.Results.{ok, err, ◌>>=◌, map_err, >>=-eq_ok}
use panshou.Text.{Text, text_beq}
use panshou.Http.Body.{Bytes, Arrival}
use panshou.Update.{max_archive, bad_archive, UpdateResult}
use panshou.Update.Archive.{
  ZipEntry, TarEntry, Archives, same_path, is_symlink, Found, zip_entry, tar_entry, is_zip,
  expected_name, read_entries, checked, binary_of,
}
use panshou.Update.Archive.Reading.{
  whole, read_to_end-whole, View, gather, reading, each_entry-gather, programs, is_readable,
  gather-program, take_view,
}

abbrev pub zip_view : (expected : Text) → ZipEntry → UpdateResult View
zip_view expected e =
    ok (text_beq e.name expected, e.is_file && not (is_symlink e.unix_mode), e.content)

abbrev pub tar_view : (expected : Text) → TarEntry → UpdateResult View
tar_view expected e =
    map_err bad_archive e.path >>= λ path. ok (same_path path expected, e.is_file, e.content)

abbrev pub readings : Archives → Bytes → (asset : Text) → UpdateResult (List (UpdateResult View))
readings archives bytes asset =
    if is_zip asset
    then (map_err bad_archive (archives.open_zip bytes) >>= λ es.
        ok (map (reading (zip_view (expected_name asset))) es))
    else map_err bad_archive (archives.open_tar bytes) >>= λ es.
        ok (map (reading (tar_view (expected_name asset))) es)

-- The archive and its entries can be read, one entry has the name of the program, it is a plain
-- file, and what it holds is not empty and not too large.
abbrev pub Extracts : Archives → Bytes → (asset : Text) → Bytes → Type 0
Extracts archives bytes asset b =
    (rs : List (UpdateResult View)) × (readings archives bytes asset ≡ ok rs)
    × (is_readable rs ≡ true)
    × ((c : List Arrival) × (programs rs ≡ (true, c) ∷ []) × (whole c ≡ ok b))
    × (is_empty b ≡ false)
    × (length b ≤ max_archive)

view_of :
    (r : UpdateResult Text) (f : Found) (view : Text → View)
    → (r >>= λ path. take_view f (view path)) ≡ ((r >>= λ path. ok (view path)) >>= take_view f)
view_of (ok path) f view = refl
view_of (err e) f view = refl

gather_with :
    {A : Type 0} (r : UpdateResult (List A)) (f : A → UpdateResult View)
    {k : List A → UpdateResult Found}
    → ((es : List A) → k es ≡ gather (false, []) (map f es))
    → (r >>= k) ≡ ((r >>= λ es. ok (map f es)) >>= gather (false, []))
gather_with (ok es) f h = h es
gather_with (err e) f h = refl

if-gather :
    (z : Bool) {a b : UpdateResult Found} (rs ts : UpdateResult (List (UpdateResult View)))
    → a ≡ (rs >>= gather (false, []))
    → b ≡ (ts >>= gather (false, []))
    → (if z then a else b) ≡ ((if z then rs else ts) >>= gather (false, []))
if-gather true rs ts h k = h
if-gather false rs ts h k = k

read_entries-gather :
    (archives : Archives) (bytes : Bytes) (asset : Text)
    → read_entries archives bytes asset ≡ (readings archives bytes asset >>= gather (false, []))
read_entries-gather archives bytes asset =
    let expected = expected_name asset in
    if-gather (is_zip asset) _ _
      (gather_with (map_err bad_archive (archives.open_zip bytes)) (reading (zip_view expected))
        (λ es.
          each_entry-gather (zip_entry expected) (zip_view expected) (false, []) es (λ f a. refl)))
      (gather_with (map_err bad_archive (archives.open_tar bytes)) (reading (tar_view expected))
        (λ es.
          each_entry-gather (tar_entry expected) (tar_view expected) (false, []) es
            (λ f a.
              view_of (map_err bad_archive a.path) f
                (λ path. (same_path path expected, a.is_file, a.content)))))

checked_iff :
    (f : Found) (b : Bytes)
    → (checked f ≡ ok b) ↔ ((f ≡ (true, b)) × (is_empty b ≡ false) × (length b ≤ max_archive))
checked_iff (true, c) b = grind arith
checked_iff (false, c) b = ground arith

-- The program is taken from an archive exactly if the archive and every entry's name can be read,
-- exactly one entry has the program's name, that entry is a plain file and no symbolic link, and it
-- holds at least one byte and at most 128 MiB; and then all that it holds is taken.
pub binary_of-Extracts :
    (archives : Archives) (bytes : Bytes) (asset : Text) (b : Bytes)
    → (binary_of archives bytes asset ≡ ok b) ↔ Extracts archives bytes asset b
unfolding binary_of
binary_of-Extracts archives bytes asset b = rw (read_entries-gather archives bytes asset) (
  λ e.
      let (f, gathered, check) =
        >>=-eq_ok (readings archives bytes asset >>= gather (false, [])) checked e in
      let (rs, read, loop) =
        >>=-eq_ok (readings archives bytes asset) (gather (false, [])) gathered in
      let (same, some_bytes, fits) = (checked_iff f b).0 check in
      let (readable, (c, one, content)) = (gather-program rs b).0 (loop ∙ ap ok same) in
      (
        rs,
        read,
        readable,
        (c, one, (read_to_end-whole (max_archive + 1) c b (omega arith)).0 content),
        some_bytes,
        fits,
      ),
  λ (rs, read, readable, (c, one, content), some_bytes, fits).
      let taken = (read_to_end-whole (max_archive + 1) c b (omega arith)).1 content in
      let loop = (gather-program rs b).1 (readable, (c, one, taken)) in
      rw read (rw loop ((checked_iff (true, b) b).1 (refl, some_bytes, fits))),
)
