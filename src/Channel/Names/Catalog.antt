-- ===== src/Channel/Names/Catalog.antt =====
-- `parse_catalog` of src/channel/mod.rs: the line that fails, or the names of all entries.
use panshou.Prelude.{
  ℕ, suc, ◌≡◌, refl, ◌∙◌, ap, Bool, true, false, not, ◌&&◌, ◌||◌, Option, none, some, List, [], ◌∷◌,
  ◌++◌, arith, any, All, All-append, Bool-cases, inl, inr, if◌then◌else◌,
}
use panshou.Prelude.Results.{ok, err, ◌>>=◌, Result-cases}
use panshou.Prelude.Keyed.{Distinct}
use panshou.Prelude.Keyed.Pushing.{has_key-append}
use panshou.Text.{Text, text_beq, text_eq, trim, trim_start_matches}
use panshou.Env.{Env}
use panshou.Core.Link.Titles.{lines_of}
use panshou.Channel.{ChannelError, ChannelResult, import_line, channel_message}
use panshou.Channel.Names.{
  normalize_channel, is_member, is_comment, at_line, catalog_from, is_bom, normalize_channels,
  parse_catalog,
}
use panshou.Channel.Names.Laws.{IsChannel, normalize_channel-IsChannel, normalize_channel_fixed}
use panshou.Channel.Names.Lists.{self, reads_as, normalize_channels_total, normalize_channels_lem}

module _ (env : Env) where
  -- The first line that is neither a comment nor a channel, with its number and what is wrong.
  abbrev failed_at : ℕ → ChannelResult Text → Option (ℕ × ChannelError) → Option (ℕ × ChannelError)
  failed_at number (ok n) later = later
  failed_at number (err e) later = some (number, e)

  abbrev pub first_bad : ℕ → List Text → Option (ℕ × ChannelError)
  first_bad number [] = none
  first_bad number (raw ∷ lines) =
      let later = first_bad (suc number) lines in
      if is_comment (trim raw)
      then later
      else failed_at number (normalize_channel env (trim raw)) later

  -- A line stands for a name.
  abbrev pub entry_reads_as : Text → Text → Bool
  entry_reads_as n raw = not (is_comment (trim raw)) && reads_as env n (trim raw)

  abbrev GatherVerdict :
      (lines names : List Text) → Option (ℕ × ChannelError) → ChannelResult (List Text) → Type 0
  GatherVerdict lines names none r =
      (ns : List Text) × (r ≡ ok ns)
      × All IsChannel ns
      × ((n : Text) → is_member n ns ≡ (is_member n names || any (entry_reads_as n) lines))
  GatherVerdict lines names (some (number, e)) r = r ≡ err (at_line number e)

  -- One line more, where it adds the names that it should.
  with_line :
      (raw : Text) (lines names' names : List Text) (bad : Option (ℕ × ChannelError))
      (r : ChannelResult (List Text))
      → ((n : Text)
          → (is_member n names' || any (entry_reads_as n) lines)
            ≡ (is_member n names || any (entry_reads_as n) (raw ∷ lines)))
      → GatherVerdict lines names' bad r
      → GatherVerdict (raw ∷ lines) names bad r
  with_line raw lines names' names none r same (ns, e, valid, mem) =
      (ns, e, valid, λ n. mem n ∙ same n)
  with_line raw lines names' names (some (number, e)) r same h = h

  catalog_from-verdict :
      (number : ℕ) (names lines : List Text)
      → All IsChannel names
      → GatherVerdict lines names (first_bad number lines) (catalog_from env number names lines)
  catalog_from-verdict number names [] h = (names, refl, h, λ n. or_false (is_member n names))
    where
      or_false : (b : Bool) → b ≡ (b || false)
      or_false b = ground arith
  catalog_from-verdict number names (raw ∷ lines) h = elim (Bool-cases (is_comment (trim raw))) [
    | inl e ↦ rw e (
        with_line raw lines names names (first_bad (suc number) lines)
          (catalog_from env (suc number) names lines) (skips e)
          (catalog_from-verdict (suc number) names lines h))
    | inr e ↦ elim (Result-cases (normalize_channel env (trim raw))) [
      | inl (n, k) ↦
          rw (e, k)
            (with_line raw lines (names ++ n ∷ []) names (first_bad (suc number) lines)
              (catalog_from env (suc number) (names ++ n ∷ []) lines) (adds n e k)
              (catalog_from-verdict (suc number) (names ++ n ∷ []) lines (
                All-append IsChannel names (n ∷ []) h
                  ((normalize_channel-IsChannel env (trim raw) n).0 k, tt))))
      | inr (f, k) ↦ rw (e, k) refl
    ]
  ]
    where
      skips :
          is_comment (trim raw) ≡ true
          → (n : Text)
          → (is_member n names || any (entry_reads_as n) lines)
            ≡ (is_member n names || any (entry_reads_as n) (raw ∷ lines))
      skips e n = rw e refl

      adds :
          (m : Text)
          → is_comment (trim raw) ≡ false
          → normalize_channel env (trim raw) ≡ ok m
          → (n : Text)
          → (is_member n (names ++ m ∷ []) || any (entry_reads_as n) lines)
            ≡ (is_member n names || any (entry_reads_as n) (raw ∷ lines))
      adds m e k n = rw (e, k) (ground (arith, has_key-append self n names (m ∷ [])))

  -- What a catalog with these lines comes to.
  abbrev pub CatalogVerdict :
      List Text → Option (ℕ × ChannelError) → ChannelResult (List Text) → Type 0
  CatalogVerdict lines none r =
      (ns : List Text) × (r ≡ ok ns)
      × Distinct self ns
      × All IsChannel ns
      × ((n : Text) → is_member n ns ≡ any (entry_reads_as n) lines)
  CatalogVerdict lines (some (number, e)) r = r ≡ err (import_line number (channel_message e))

  finish_verdict :
      (lines : List Text) (bad : Option (ℕ × ChannelError)) (r : ChannelResult (List Text))
      → GatherVerdict lines [] bad r
      → CatalogVerdict lines bad (r >>= normalize_channels env)
  finish_verdict lines none r (ns, e, valid, mem) =
      let (ms, k) = normalize_channels_total env ns valid in
      let laws = normalize_channels_lem env ns ms k in
      rw (e, k) (ms, refl, laws.0, laws.1, λ n. laws.2 n ∙ fixed_names ns valid n ∙ mem n)
    where
      fixed_names :
          (ns : List Text)
          → All IsChannel ns
          → (n : Text) → any (reads_as env n) ns ≡ is_member n ns
      fixed_names [] v n = refl
      fixed_names (m ∷ ms) v n =
          rw (normalize_channel_fixed env m v.0)
            (ap (λ b. text_beq m n || b) (fixed_names ms v.1 n))
  finish_verdict lines (some (number, e)) r h = rw h refl

  -- A catalog is refused for the first line that is neither empty, nor a comment, nor a channel, with
  -- the number of that line; if there is none, its names are distinct channel names, those that its
  -- entries stand for and no others.
  pub parse_catalog-verdict :
      (input : Text)
      → let lines = lines_of (trim_start_matches is_bom input) in
        CatalogVerdict lines (first_bad 1 lines) (parse_catalog env input)
  unfolding parse_catalog
  parse_catalog-verdict input =
      let lines = lines_of (trim_start_matches is_bom input) in
      finish_verdict lines (first_bad 1 lines) (catalog_from env 1 [] lines)
        (catalog_from-verdict 1 [] lines tt)
