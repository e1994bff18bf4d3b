-- ===== src/Channel/Names/Laws.antt =====
-- Normal names of channels, in src/channel/mod.rs: what they look like, and that they are fixed.
use panshou.Prelude.{
  ℕ, suc, ◌≤◌, ◌≡◌, ◌≢◌, ◌↔◌, refl, ap, Bool, true, false, ◌&&◌, ◌||◌, Option, none, some, [], ◌∷◌,
  map, arith, leb, ◌==◌, is_empty, all, length, Bool-cases, inl, inr,
}
use panshou.Prelude.Results.{ok}
use panshou.Text.{
  Text, text, text_beq_iff, trim, is_whitespace, trim_start_matches, trim_end_matches, ascii_lower,
  to_ascii_lowercase, contains, utf8_len, utf8_width,
}
use panshou.Env.{Env}
use panshou.Channel.Names.{
  is_name_char, starts_alphabetic, is_name, raw_name, checked, normalize_channel,
}

lower_twice : (c : ℕ) → ascii_lower (ascii_lower c) ≡ ascii_lower c
lower_twice c = ground arith

pub to_ascii_lowercase_twice :
    (s : Text) → to_ascii_lowercase (to_ascii_lowercase s) ≡ to_ascii_lowercase s
unfolding to_ascii_lowercase
to_ascii_lowercase_twice [] = refl
to_ascii_lowercase_twice (c ∷ s) = cc (lower_twice c, to_ascii_lowercase_twice s)

is_name_char-lower : (c : ℕ) → is_name_char (ascii_lower c) ≡ is_name_char c
is_name_char-lower c = ground arith

all-lower : (s : Text) → all is_name_char (map ascii_lower s) ≡ all is_name_char s
all-lower [] = refl
all-lower (c ∷ s) = cc (is_name_char-lower c, all-lower s)

width_lower : (c : ℕ) → utf8_width (ascii_lower c) ≡ utf8_width c
width_lower c = ground arith

utf8_len-lower : (s : Text) → utf8_len (map ascii_lower s) ≡ utf8_len s
utf8_len-lower [] = refl
utf8_len-lower (c ∷ s) = omega (arith, width_lower c, utf8_len-lower s)

starts_alphabetic-lower : (s : Text) → starts_alphabetic (map ascii_lower s) ≡ starts_alphabetic s
starts_alphabetic-lower [] = refl
starts_alphabetic-lower (c ∷ s) = ground arith

is_empty-lower : (s : Text) → is_empty (map ascii_lower s) ≡ is_empty s
is_empty-lower [] = refl
is_empty-lower (c ∷ s) = refl

-- The checks do not read the case of letters.
is_name-to_ascii_lowercase : (s : Text) → is_name (to_ascii_lowercase s) ≡ is_name s
unfolding is_name to_ascii_lowercase
is_name-to_ascii_lowercase s = ground (
  arith,
  is_empty-lower s,
  utf8_len-lower s,
  starts_alphabetic-lower s,
  all-lower s,
  to_ascii_lowercase_twice s,
)

-- Characters of names are no whitespace and no colon.
plain_char : (c : ℕ) → is_name_char c ≡ true → (is_whitespace c ≡ false) × ((b':' == c) ≡ false)
unfolding is_whitespace
plain_char c h = ground arith

trim_start_plain : (s : Text) → all is_name_char s ≡ true → trim_start_matches is_whitespace s ≡ s
trim_start_plain [] h = refl
trim_start_plain (c ∷ s) h = ground (arith, plain_char c)

trim_end_plain : (s : Text) → all is_name_char s ≡ true → trim_end_matches is_whitespace s ≡ s
trim_end_plain [] h = refl
trim_end_plain (c ∷ s) h = ground (arith, plain_char c, trim_end_plain s)

trim_plain : (s : Text) → all is_name_char s ≡ true → trim s ≡ s
unfolding trim
trim_plain s h = rw (trim_start_plain s h) (trim_end_plain s h)

no_scheme : (s : Text) → all is_name_char s ≡ true → contains (text "://") s ≡ false
no_scheme [] h = refl
no_scheme (c ∷ s) h = ground (arith, plain_char c, no_scheme s)

-- A channel name: a lower-case letter, then letters, digits and `_`, 32 in all at most, and none of
-- the words that stand for something else in an address.
abbrev is_lower_letter : ℕ → Bool
is_lower_letter c = leb b'a' c && leb c b'z'

abbrev is_lower_char : ℕ → Bool
is_lower_char c = is_lower_letter c || (leb b'0' c && leb c b'9') || c == b'_'

abbrev starts_lower : Text → Bool
starts_lower [] = false
starts_lower (c ∷ s) = is_lower_letter c

abbrev pub IsChannel : Text → Type 0
IsChannel n =
    (starts_lower n ≡ true)
    × (length n ≤ 32)
    × (all is_lower_char n ≡ true)
    × (n ≢ text "joinchat")
    × (n ≢ text "s")
    × (n ≢ text "c")

ascii_len : (s : Text) → all is_name_char s ≡ true → utf8_len s ≡ length s
ascii_len [] h = refl
ascii_len (c ∷ s) h = ground (arith, ascii_len s)

all_lower_chars :
    (s : Text) → all is_name_char s ≡ true → all is_lower_char (map ascii_lower s) ≡ true
all_lower_chars [] h = refl
all_lower_chars (c ∷ s) h = ground (arith, all_lower_chars s)

length-lower : (s : Text) → length (map ascii_lower s) ≡ length s
length-lower [] = refl
length-lower (c ∷ s) = ap suc (length-lower s)

starts_lower_lem : (s : Text) → starts_alphabetic s ≡ true → starts_lower (map ascii_lower s) ≡ true
starts_lower_lem [] h = cc
starts_lower_lem (c ∷ s) h = ground arith

lower-IsChannel : (s : Text) → is_name s ≡ true → IsChannel (to_ascii_lowercase s)
unfolding is_name to_ascii_lowercase
lower-IsChannel s h = (
  ground (arith, starts_lower_lem s),
  ground (arith, length-lower s, ascii_len s),
  ground (arith, all_lower_chars s),
  (λ e. ground (arith, text_beq_iff (map ascii_lower s) (text "joinchat"))),
  (λ e. ground (arith, text_beq_iff (map ascii_lower s) (text "s"))),
  λ e. ground (arith, text_beq_iff (map ascii_lower s) (text "c")),
)

-- A channel name passes the checks and has no capitals.
lower_fixed : (n : Text) → all is_lower_char n ≡ true → map ascii_lower n ≡ n
lower_fixed [] h = refl
lower_fixed (c ∷ s) h = ground (arith, lower_fixed s)

lower_chars_plain : (n : Text) → all is_lower_char n ≡ true → all is_name_char n ≡ true
lower_chars_plain [] h = refl
lower_chars_plain (c ∷ s) h = ground (arith, lower_chars_plain s)

starts_lower_plain :
    (n : Text) → starts_lower n ≡ true → (starts_alphabetic n ≡ true) × (is_empty n ≡ false)
starts_lower_plain [] h = cc
starts_lower_plain (c ∷ s) h = ground arith

is_name-IsChannel : (n : Text) → IsChannel n → is_name n ≡ true
unfolding is_name to_ascii_lowercase
is_name-IsChannel n h = ground (
  arith,
  lower_fixed n h.2,
  ascii_len n (lower_chars_plain n h.2),
  lower_chars_plain n h.2,
  starts_lower_plain n h.0,
  text_beq_iff n (text "joinchat"),
  text_beq_iff n (text "s"),
  text_beq_iff n (text "c"),
)

module _ (env : Env) where
  raw_plain : (n : Text) → IsChannel n → raw_name env n ≡ some n
  unfolding raw_name
  raw_plain [] h = absurd (ground (arith, h.0))
  raw_plain (c ∷ s) h = ground (arith, no_scheme (c ∷ s) (lower_chars_plain (c ∷ s) h.2), h.0)

  pub normalize_channel_fixed : (n : Text) → IsChannel n → normalize_channel env n ≡ ok n
  unfolding normalize_channel
  normalize_channel_fixed n h =
      let plain = lower_chars_plain n h.2 in
      let same : to_ascii_lowercase n ≡ n = unfold to_ascii_lowercase in lower_fixed n h.2 in
      rw (trim_plain n plain, raw_plain n h, is_name-IsChannel n h, same) refl

  checked-IsChannel :
      (input : Text) (raw : Option Text) {n : Text} → checked env input raw ≡ ok n → IsChannel n
  checked-IsChannel input none h = cc
  checked-IsChannel input (some s) {n} h = elim (Bool-cases (is_name s)) [
    | inl e ↦
        let same : to_ascii_lowercase s ≡ n = ground arith in rw (← same) (lower-IsChannel s e)
    | inr e ↦ absurd (ground arith)
  ]

  -- Whatever text or address it reads, the normal form is a channel name; and it leaves
  -- exactly the channel names alone.
  pub normalize_channel-IsChannel :
      (s n : Text)
      → (normalize_channel env s ≡ ok n → IsChannel n)
        × ((normalize_channel env n ≡ ok n) ↔ IsChannel n)
  unfolding normalize_channel
  normalize_channel-IsChannel s n = (
    checked-IsChannel (trim s) (raw_name env (trim s)),
    (checked-IsChannel (trim n) (raw_name env (trim n)), normalize_channel_fixed n),
  )
