-- ===== src/Channel/Page/Laws.antt =====
-- Which channels ChannelValidator in src/channel/mod.rs accepts, and which it refuses for good.
use panshou.Prelude.{
  ◌≡◌, ◌↔◌, refl, sym, ◌∙◌, ap, subst, Bool, true, false, not, ◌&&◌, ◌||◌, List, [], ◌∷◌, arith,
  ◌==◌, All, inl, inr,
}
use panshou.Prelude.Results.{Result, ok, err, ◌>>◌, Result-cases}
use panshou.Text.{Text}
use panshou.Env.{Env}
use panshou.Channel.{ChannelError, invalid_source, ChannelResult}
use panshou.Channel.Names.{normalize_channels}
use panshou.Channel.Names.Lists.{normalize_channels-error}
use panshou.Channel.Page.{
  ChannelPageKind, public_messages, bot, no_public_messages, unknown, Reply, failed, answered,
  in_class, classify_channel_page, of_kind, of_body, validate_one, validate_each, validate,
}

abbrev is_public : ChannelPageKind → Bool
is_public public_messages = true
is_public bot = false
is_public no_public_messages = false
is_public unknown = false

abbrev is_no_channel : ChannelPageKind → Bool
is_no_channel public_messages = false
is_no_channel bot = true
is_no_channel no_public_messages = true
is_no_channel unknown = false

module _ (env : Env) where
  abbrev on_page : (ChannelPageKind → Bool) → Text → Result Text Text → Bool
  on_page test name (ok body) = test (classify_channel_page env body name)
  on_page test name (err reason) = false

  -- The answer shows the messages of a channel.
  abbrev pub is_searchable : Text → Reply → Bool
  is_searchable name (failed reason) = false
  is_searchable name (answered status body) = in_class status 200 && on_page is_public name body

  -- The answer shows that there is no such channel.
  abbrev pub is_refused : Text → Reply → Bool
  is_refused name (failed reason) = false
  is_refused name (answered status body) =
      (in_class status 400 && not (status == 429))
      || (in_class status 200 && on_page is_no_channel name body)

  of_kind_ok :
      (name : Text) (kind : ChannelPageKind)
      → (of_kind env name kind ≡ ok tt) ↔ (is_public kind ≡ true)
  of_kind_ok name public_messages = ground arith
  of_kind_ok name bot = ground arith
  of_kind_ok name no_public_messages = ground arith
  of_kind_ok name unknown = ground arith

  of_body_ok :
      (name : Text) (body : Result Text Text)
      → (of_body env name body ≡ ok tt) ↔ (on_page is_public name body ≡ true)
  of_body_ok name (ok body) = of_kind_ok name (classify_channel_page env body name)
  of_body_ok name (err reason) = ground arith

  validate_one_ok :
      (name : Text) (reply : Reply)
      → (validate_one env name reply ≡ ok tt) ↔ (is_searchable name reply ≡ true)
  unfolding validate_one
  validate_one_ok name (failed reason) = ground arith
  validate_one_ok name (answered status body) = ground (arith, of_body_ok name body)

  of_kind_refused :
      (name : Text) (kind : ChannelPageKind) {other reason : Text}
      → of_kind env name kind ≡ err (invalid_source other reason)
      → (name ≡ other) × (is_no_channel kind ≡ true)
  of_kind_refused name public_messages h = cc
  of_kind_refused name bot h = ground arith
  of_kind_refused name no_public_messages h = ground arith
  of_kind_refused name unknown h = cc

  of_body_refused :
      (name : Text) (body : Result Text Text) {other reason : Text}
      → of_body env name body ≡ err (invalid_source other reason)
      → (name ≡ other) × (on_page is_no_channel name body ≡ true)
  of_body_refused name (ok body) h = of_kind_refused name (classify_channel_page env body name) h
  of_body_refused name (err r) h = cc

  validate_one_refused :
      (name : Text) (reply : Reply) {other reason : Text}
      → validate_one env name reply ≡ err (invalid_source other reason)
      → (name ≡ other) × (is_refused name reply ≡ true)
  unfolding validate_one
  validate_one_refused name (failed r) h = cc
  validate_one_refused name (answered status body) {other} {reason} h =
      ground (arith, of_body_refused name body {other = other} {reason = reason})

  each_ok :
      (reply : Text → Reply) (names : List Text)
      → (validate_each env reply names ≡ ok tt) ↔ All (λ n. is_searchable n (reply n) ≡ true) names
  each_ok reply [] = ((λ h. tt), λ h. refl)
  each_ok reply (n ∷ names) = elim (Result-cases (validate_one env n (reply n))) [
    | inl (u, e) ↦ rw e (
      (λ h. ((validate_one_ok n (reply n)).0 (ground arith), (each_ok reply names).0 h)),
      λ h. (each_ok reply names).1 h.1,
    )
    | inr (f, e) ↦
        rw e ((λ h. cc), λ h. absurd (ground (arith, (validate_one_ok n (reply n)).1 h.0)))
  ]

  each_refused :
      (reply : Text → Reply) (names : List Text) {other reason : Text}
      → validate_each env reply names ≡ err (invalid_source other reason)
      → is_refused other (reply other) ≡ true
  each_refused reply [] h = cc
  each_refused reply (n ∷ names) {other} {reason} h =
      elim (Result-cases (validate_one env n (reply n))) [
        | inl (u, e) ↦ each_refused reply names {reason = reason} (rw e at h)
        | inr (f, e) ↦
            let same : f ≡ invalid_source other reason = ground arith in
            let laws =
              validate_one_refused n (reply n) {other = other} {reason = reason}
                (e ∙ ap err same) in
            subst (λ x. is_refused x (reply x) ≡ true) laws.0 laws.1
      ]

  -- After the names are read.
  each_then :
      (reply : Text → Reply) (found ns : List Text) (name reason : Text)
      → (((validate_each env reply found >> ok found) ≡ ok ns) ↔ (
          (◌≡◌ {A = ChannelResult (List Text)} (ok found) (ok ns))
          × All (λ n. is_searchable n (reply n) ≡ true) ns))
        × ((validate_each env reply found >> ok found) ≡ err (invalid_source name reason)
            → is_refused name (reply name) ≡ true)
  each_then reply found ns name reason = elim (Result-cases (validate_each env reply found)) [
    | inl (tt', e) ↦
        let all = (each_ok reply found).0 e in
        rw e (
          (
            (λ h. (h, subst (All (λ n. is_searchable n (reply n) ≡ true)) (ground arith) all)),
            λ h. h.0,
          ),
          λ h. cc,
        )
    | inr (f, e) ↦ rw e (
      ((λ h. cc), λ h. absurd (refuted found ns e (ground (arith, h.0)) h.1)),
      λ h.
          let same : f ≡ invalid_source name reason = ground arith in
          each_refused reply found {reason = reason} (e ∙ ap err same),
    )
  ]
    where
      refuted :
          (found ns : List Text) {f : ChannelError}
          → validate_each env reply found ≡ err f
          → found ≡ ns
          → All (λ n. is_searchable n (reply n) ≡ true) ns
          → ⊥
      refuted found ns e same all =
          let fine : validate_each env reply found ≡ ok tt =
            (each_ok reply found).1
              (subst (All (λ n. is_searchable n (reply n) ≡ true)) (sym same) all) in
          cc

  -- Names are accepted exactly if each of them is a channel name whose page shows messages; and a
  -- name is called an invalid source only if Telegram answered so: by a client error other than 429,
  -- or by a page of a bot or without messages.
  pub validate-verdict :
      (reply : Text → Reply) (names ns : List Text) (name reason : Text)
      → ((validate env reply names ≡ ok ns) ↔ (
          (normalize_channels env names ≡ ok ns) × All (λ n. is_searchable n (reply n) ≡ true) ns))
        × (validate env reply names ≡ err (invalid_source name reason)
            → is_refused name (reply name) ≡ true)
  unfolding validate
  validate-verdict reply names ns name reason = elim (Result-cases (normalize_channels env names)) [
    | inl (found, e) ↦ rw e (each_then reply found ns name reason)
    | inr (f, e) ↦ rw e (
      ((λ h. cc), λ h. cc),
      λ h.
          let (s, k) = normalize_channels-error env names e in
          let same : f ≡ invalid_source name reason = ground arith in absurd (ground (arith, k)),
    )
  ]
