-- ===== src/Channel/Page.antt =====
-- `classify_channel_page` and `ChannelValidator` of src/channel/mod.rs. What Telegram answers for a
-- name is an argument.
pub mod Laws
use panshou.Prelude.{
  ℕ, ◌+◌, Bool, true, false, ◌&&◌, ◌||◌, List, [], ◌∷◌, ◌++◌, ltb, leb, ◌==◌, if◌then◌else◌, any,
}
use panshou.Prelude.Results.{Result, ok, err, ◌>>=◌, ◌>>◌}
use panshou.Text.{Text, text, to_ascii_lowercase, starts_with, contains}
use panshou.Env.{Env}
use panshou.Channel.{ChannelError, invalid_source, validation_uncertain, ChannelResult}
use panshou.Channel.Names.{normalize_channels}

pub data ChannelPageKind : Type 0 where
  public_messages bot no_public_messages unknown : ChannelPageKind

-- What a request for `s/<name>` comes to: no address or no response, or a status, and what reading
-- the body gives.
pub data Reply : Type 0 where
  failed : (reason : Text) → Reply
  answered : (status : ℕ) → Result Text Text → Reply

abbrev pub in_class : ℕ → ℕ → Bool
in_class status lowest = leb lowest status && ltb status (lowest + 100)

module _ (env : Env) where
  abbrev pub posts_of : (html name : Text) → Bool
  posts_of html name =
      any (λ post. starts_with (name ++ text "/") (to_ascii_lowercase post)) (env.data_posts html)

  unfoldable pub classify_channel_page : (html expected_name : Text) → ChannelPageKind
  unfolding to_ascii_lowercase
  classify_channel_page html expected_name =
      let has = λ (word : Text). contains word (to_ascii_lowercase html) in
      if posts_of html expected_name
      then public_messages
      else if has (text "tme_no_messages_found") || has (text "no posts found")
      then public_messages
      else if has (text "start bot")
          || has (text "monthly users")
          || has (text "monthly user")
          || has (text "?start=")
      then bot
      else if has (text "tgme_page_wrap")
          || has (text "tgme_page_error")
          || has (text "tgme_channel_info")
      then no_public_messages
      else unknown

  abbrev of_kind : Text → ChannelPageKind → ChannelResult (Unit {0})
  of_kind name public_messages = ok tt
  of_kind name bot = err (invalid_source name (text "it is a bot, not a public channel"))
  of_kind name no_public_messages =
      err (invalid_source name (text "it has no public /s/<name> message archive"))
  of_kind name unknown =
      err (validation_uncertain name (text "Telegram returned an unrecognized page"))

  abbrev of_body : Text → Result Text Text → ChannelResult (Unit {0})
  of_body name (err reason) = err (validation_uncertain name reason)
  of_body name (ok body) = of_kind name (classify_channel_page body name)

  unfoldable pub validate_one : Text → Reply → ChannelResult (Unit {0})
  unfolding classify_channel_page
  validate_one name (failed reason) = err (validation_uncertain name reason)
  validate_one name (answered status body) =
      if status == 429 || in_class status 500
      then err
          (validation_uncertain name (text "Telegram returned HTTP " ++ env.status_text status))
      else if in_class status 400
      then err (invalid_source name (text "Telegram returned HTTP " ++ env.status_text status))
      else if in_class status 200
      then of_body name body
      else err (validation_uncertain name (text "unexpected HTTP " ++ env.status_text status))

  abbrev pub validate_each : (Text → Reply) → List Text → ChannelResult (Unit {0})
  validate_each reply [] = ok tt
  validate_each reply (name ∷ names) = validate_one name (reply name) >> validate_each reply names

  unfoldable pub validate : (Text → Reply) → List Text → ChannelResult (List Text)
  unfolding normalize_channels validate_one
  validate reply names = do
    found ← normalize_channels env names
    validate_each reply found
    ok found
