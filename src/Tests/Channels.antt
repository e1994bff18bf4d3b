-- ===== src/Tests/Channels.antt =====
-- A file of channels that is changed, a catalog, and pages of Telegram.
use panshou.Prelude.{
  ◌↔◌, subst, any, All, if◌then◌else◌, ℕ, suc, zero, ◌≡◌, refl, ◌∙◌, ap, Bool, true, false, none,
  List, [], ◌∷◌, arith,
}
use panshou.Prelude.Results.{Result, ok, err}
use panshou.Prelude.Keyed.{Distinct}
use panshou.Text.{Text, text, text_beq, text_eq, trim_start_matches}
use panshou.Core.Link.Titles.{lines_of}
use panshou.Channel.{Channel, ChannelList, no_change, invalid_source}
use panshou.Channel.Names.{is_member, is_bom, normalize_channel, normalize_channels, parse_catalog}
use panshou.Channel.Names.Laws.{IsChannel, normalize_channel-IsChannel}
use panshou.Channel.Names.Lists.{self, reads_as, normalize_channels_lem}
use panshou.Channel.Names.Catalog.{CatalogVerdict, first_bad, parse_catalog-verdict}
use panshou.Channel.Page.{Reply, answered, validate}
use panshou.Channel.Page.Laws.{is_searchable, is_refused, validate-verdict}
use panshou.Channel.Store.{Toml, Disk, add}
use panshou.Channel.Store.Saving.{RoundTrip, Applies}
use panshou.Channel.Store.Calls.{add_names, run_call, meaning, run_call-Applies}
use panshou.Tests.{sample_env}

-- A file format: the version, then for each channel its switch and the characters of its name.
abbrev encode_name : Text → Text → Text
encode_name [] rest = rest
encode_name (c ∷ s) rest = suc (suc c) ∷ encode_name s rest

abbrev switch : Bool → ℕ
switch true = 1
switch false = 0

abbrev encode : List Channel → Text
encode [] = []
encode (c ∷ cs) = switch c.enabled ∷ encode_name c.name (encode cs)

abbrev decode_one : ℕ → Text × List Channel → Text × List Channel
decode_one zero (name, cs) = ([], record { name = name; enabled = false } ∷ cs)
decode_one (suc zero) (name, cs) = ([], record { name = name; enabled = true } ∷ cs)
decode_one (suc (suc c)) (name, cs) = (c ∷ name, cs)

abbrev decode : Text → Text × List Channel
decode [] = ([], [])
decode (c ∷ s) = decode_one c (decode s)

abbrev read_sample : Text → Result Text ChannelList
read_sample [] = err (text "no version")
read_sample (v ∷ s) = ok (record { version = v; channels = (decode s).1 })

abbrev sample_toml : Toml
sample_toml = record {
  read_list = read_sample;
  print_list = λ list. ok (list.version ∷ encode list.channels);
}

decode-encode_name :
    (name rest : Text) (cs : List Channel)
    → decode rest ≡ ([], cs)
    → decode (encode_name name rest) ≡ (name, cs)
decode-encode_name [] rest cs h = h
decode-encode_name (c ∷ s) rest cs h =
    ap (decode_one (suc (suc c))) (decode-encode_name s rest cs h)

decode_switch :
    (b : Bool) (name : Text) (cs : List Channel)
    → decode_one (switch b) (name, cs) ≡ ([], record { name = name; enabled = b } ∷ cs)
decode_switch true name cs = refl
decode_switch false name cs = refl

decode-encode : (cs : List Channel) → decode (encode cs) ≡ ([], cs)
decode-encode [] = refl
decode-encode (c ∷ cs) =
    ap (decode_one (switch c.enabled)) (decode-encode_name c.name (encode cs) cs (decode-encode cs))
    ∙ decode_switch c.enabled c.name cs

sample_toml-RoundTrip : RoundTrip sample_toml
sample_toml-RoundTrip list content h =
    let same : list.version ∷ encode list.channels ≡ content = ground arith in
    subst (λ t. read_sample t ≡ ok list) same
      (ap (λ cs. ok (record { version = list.version; channels = cs.1 }))
        (decode-encode list.channels))

abbrev sample_disk : Disk
sample_disk = record {
  create_dir = none;
  open_lock = none;
  read_file = none;
  create_temporary = none;
  write_all = none;
  persist = none;
}

abbrev names : List Text
names = text "@Foo" ∷ text "tgsearchers7" ∷ text "foo" ∷ []

run_call-Applies_example :
    Applies sample_env sample_toml sample_disk
      (meaning sample_env sample_toml sample_disk (add_names names true))
      true
      none
      (run_call sample_env sample_toml sample_disk (add_names names true) none)
run_call-Applies_example =
    run_call-Applies sample_env sample_toml sample_disk (add_names names true) none
      sample_toml-RoundTrip

-- `foo` joins the default channel, once.
added :
    (run_call sample_env sample_toml sample_disk (add_names names true) none).1
    ≡ ok (record no_change { added = 1; existing = 1 })
unfolding add
added = refl

normalize_channel-IsChannel_example :
    (normalize_channel sample_env (text " @Foo") ≡ ok (text "foo") → IsChannel (text "foo"))
    × ((normalize_channel sample_env (text "foo") ≡ ok (text "foo")) ↔ IsChannel (text "foo"))
normalize_channel-IsChannel_example =
    normalize_channel-IsChannel sample_env (text " @Foo") (text "foo")

distinct_names : normalize_channels sample_env names ≡ ok (text "foo" ∷ text "tgsearchers7" ∷ [])
unfolding normalize_channels
distinct_names = refl

normalize_channels_lem_example :
    Distinct self (text "foo" ∷ text "tgsearchers7" ∷ [])
    × All IsChannel (text "foo" ∷ text "tgsearchers7" ∷ [])
    × ((n : Text)
        → is_member n (text "foo" ∷ text "tgsearchers7" ∷ []) ≡ any (reads_as sample_env n) names)
    × (normalize_channels sample_env (text "foo" ∷ text "tgsearchers7" ∷ [])
        ≡ ok (text "foo" ∷ text "tgsearchers7" ∷ []))
normalize_channels_lem_example =
    normalize_channels_lem sample_env names (text "foo" ∷ text "tgsearchers7" ∷ []) distinct_names

abbrev catalog : Text
catalog = text "# list\nfoo\n\nnot a name\n"

abbrev catalog_lines : List Text
catalog_lines = lines_of (trim_start_matches is_bom catalog)

parse_catalog-verdict_example :
    CatalogVerdict sample_env catalog_lines
      (first_bad sample_env 1 catalog_lines)
      (parse_catalog sample_env catalog)
parse_catalog-verdict_example = parse_catalog-verdict sample_env catalog

-- The page of `foo` shows a post of it, and there is no page of others.
abbrev page : Text → Reply
page name =
    if text_beq name (text "foo") then answered 200 (ok (text "foo/1")) else answered 404 (ok [])

validate-verdict_example :
    ((validate sample_env page names ≡ ok (text "foo" ∷ [])) ↔ (
      (normalize_channels sample_env names ≡ ok (text "foo" ∷ []))
      × All (λ n. is_searchable sample_env n (page n) ≡ true) (text "foo" ∷ [])))
    × (validate sample_env page names
          ≡ err (invalid_source (text "tgsearchers7") (text "Telegram returned HTTP "))
        → is_refused sample_env (text "tgsearchers7") (page (text "tgsearchers7")) ≡ true)
validate-verdict_example =
    validate-verdict sample_env page names (text "foo" ∷ []) (text "tgsearchers7")
      (text "Telegram returned HTTP ")
