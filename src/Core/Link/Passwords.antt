-- ===== src/Core/Link/Passwords.antt =====
-- The extraction codes of links, in src/core/link.rs. Both patterns of codes have their group in
-- every match, so the code of the first match is the first that `captures_iter` has.
use mathlib.Core.List.{reverse}
use panshou.Prelude.{
  ℕ, ◌+◌, ◌-◌, Bool, false, not, ◌&&◌, ◌||◌, Option, none, some, List, [], ◌∷◌, ◌++◌, ◌==◌, ltb,
  leb, if◌then◌else◌, any, length, take, drop, or_option, unwrap_or,
}
use panshou.Text.{
  Text, text, text_beq, strip_prefix, contains, find, trim_end_matches, utf8_width, utf8_len,
}
use panshou.Env.{Env}
use panshou.Core.Link.Patterns.{link_pattern, url_password_pattern, text_password_pattern}
use panshou.Core.Link.Normalize.{is_slash}

abbrev first_of_list {ℓ} : {A : Type ℓ} → List A → Option A
first_of_list [] = none
first_of_list (x ∷ xs) = some x

-- `split([..]).next()`: what stands before the first of the characters.
abbrev pub before : (ℕ → Bool) → Text → Text
before p [] = []
before p (c ∷ s) = if p c then [] else c ∷ before p s

-- `split(word).next()`.
abbrev before_word : Text → Text → Text
before_word word s = elim (find word s) [ none ↦ s | some i ↦ take i s ]

-- The longest prefix of at most so many bytes: the end moves back to a boundary.
take_bytes : ℕ → Text → Text
take_bytes n [] = []
take_bytes n (c ∷ s) =
    let rest = take_bytes (n - utf8_width c) s in if leb (utf8_width c) n then c ∷ rest else []

abbrev is_query_mark : ℕ → Bool
is_query_mark c = c == b'?' || c == b'#'

abbrev base_of : Text → Text
base_of url = trim_end_matches is_slash (before is_query_mark url)

abbrev bare_of : Text → Text
bare_of base =
    unwrap_or (or_option (strip_prefix (text "https://") base) (strip_prefix (text "http://") base))
      base

-- `rsplit('/').next()`: what follows the last slash.
abbrev last_part : Text → Text
last_part s = reverse (before is_slash (reverse s))

abbrev anchors_of : Text → List Text
anchors_of base =
    let bare = bare_of base in
    let no_www = unwrap_or (strip_prefix (text "www.") bare) bare in
    let last = last_part base in
    base
    ∷ no_www
    ∷ (text "www." ++ no_www)
    ∷ (if ltb 5 (utf8_len last) then (text "/" ++ last) ∷ [] else [])

-- `find_map`: what follows the first anchor that occurs.
abbrev tail_after : Text → List Text → Option Text
tail_after context [] = none
tail_after context (anchor ∷ anchors) = elim (find anchor context) [
  | none ↦ tail_after context anchors
  | some i ↦ some (drop (i + length anchor) context)
]

abbrev window_of : Text → Option Text → Option Text
window_of context (some tail) = some (before_word (text "http") tail)
window_of context none =
    if leb (utf8_len context) 120 && not (contains (text "http") context)
    then some context
    else none

-- Inserting the codes into a set.
abbrev distinct_codes : List Text → List Text → List Text
distinct_codes set [] = set
distinct_codes set (code ∷ codes) =
    distinct_codes (if any (λ c. text_beq c code) set then set else set ++ code ∷ []) codes

module _ (env : Env) where
  abbrev url_code : Text → Option Text
  url_code url = first_of_list (env.captures_iter (env.regex url_password_pattern) url)

  abbrev text_codes : Text → List Text
  text_codes s = env.captures_iter (env.regex text_password_pattern) s

  unfoldable pub extract_password : Text → Text → Option Text
  extract_password content url = or_option (url_code url) (
      or_option (first_of_list (text_codes (env.percent_decode url)))
        (first_of_list (text_codes content)))

  password_near : Text → Text → Option Text
  unfolding extract_password take_bytes
  password_near context url =
      elim (window_of context (tail_after context (anchors_of (base_of url)))) [
        | none ↦ none
        | some window ↦ extract_password (take_bytes 60 window) []
      ]

  -- A code attached to another link is not a message-wide shared code.
  abbrev belongs_to_link : Text → Bool
  belongs_to_link context = elim (first_of_list (env.find_iter (env.regex link_pattern) context)) [
    | none ↦ false
    | some first ↦ not (env.is_match (env.regex text_password_pattern) (take first.start context))
  ]

  abbrev shared_code : Text → List Text → Option Text
  shared_code context [] = none
  shared_code context (code ∷ []) = if belongs_to_link context then none else some code
  shared_code context (code ∷ other ∷ codes) = none

  unfoldable pub extract_password_for_link : Text → Text → Text → Option Text
  unfolding extract_password password_near
  extract_password_for_link context url label = or_option (extract_password [] url) (
      or_option (password_near label url) (
        or_option (password_near context url)
          (shared_code context (distinct_codes [] (text_codes context)))))
