-- ===== src/Core/Link/Titles.antt =====
-- The titles of links in a message, in src/core/link.rs.
use mathlib.Core.List.{reverse}
use panshou.Prelude.{
  ℕ, zero, suc, Bool, not, ◌&&◌, ◌||◌, Option, none, some, List, [], ◌∷◌, ◌==◌, if◌then◌else◌,
  is_empty, any, length, take, lookup, insert, or_option, unwrap_or, filter_option,
}
use panshou.Text.{
  Text, text, trim, trim_end, trim_start_matches, trim_end_matches, strip_prefix, starts_with,
  contains, is_whitespace, text_eq,
}
use panshou.Env.{Found, Env}
use panshou.Core.Model.{Link}
use panshou.Core.Link.Patterns.{link_pattern, date_pattern}
use panshou.Core.Link.Normalize.{canonical_url_key}
use panshou.Core.Merge.{description_markers, first_marker}

-- `lines()`: no last empty line. (A `\r` at an end goes with `trim`.)
abbrev add_char : ℕ → List Text → List Text
add_char c [] = (c ∷ []) ∷ []
add_char c (line ∷ lines) = (c ∷ line) ∷ lines

abbrev pub lines_of : Text → List Text
lines_of [] = []
lines_of (c ∷ s) = let lines = lines_of s in if c == b'\n' then [] ∷ lines else add_char c lines

-- `trim_start_matches(word)`: on as many rounds as the text is long, each takes the word off.
abbrev trim_start_word : ℕ → Text → Text → Text
trim_start_word zero word s = s
trim_start_word (suc n) word s = elim (strip_prefix word s) [
  | none ↦ s
  | some rest ↦ trim_start_word n word rest
]

abbrev trim_end_word : Text → Text → Text
trim_end_word word s = reverse (trim_start_word (length s) (reverse word) (reverse s))

abbrev is_one_of : Text → ℕ → Bool
is_one_of cs c = any (λ d. c == d) cs

clean_title : Text → Text
unfolding trim
clean_title value =
    let bare = trim (trim_start_matches (is_one_of (text "#-•·")) (trim value)) in
    trim
      (unwrap_or (or_option (strip_prefix (text "名称：") bare) (strip_prefix (text "标题：") bare)) bare)

abbrev drive_markers : List Text
drive_markers =
    text "夸克网盘"
    ∷ text "百度网盘"
    ∷ text "迅雷网盘"
    ∷ text "阿里云盘"
    ∷ text "天翼云盘"
    ∷ text "UC网盘"
    ∷ text "移动云盘"
    ∷ text "115网盘"
    ∷ text "123网盘"
    ∷ text "PikPak网盘"
    ∷ text "夸克"
    ∷ text "百度"
    ∷ text "迅雷"
    ∷ text "阿里"
    ∷ text "天翼"
    ∷ text "UC"
    ∷ text "115"
    ∷ text "123"
    ∷ text "链接"
    ∷ text "地址"
    ∷ []

drop_markers : List Text → Text → Text
unfolding trim_end
drop_markers [] value = value
drop_markers (marker ∷ markers) value = drop_markers markers (trim_end (trim_end_word marker value))

-- `split_once`: the part before the mark, if it occurs.
abbrev before_bar : Text → Text
before_bar [] = []
before_bar (c ∷ s) = if is_one_of (text "丨") c then [] else c ∷ before_bar s

abbrev nonempty_title : Text → Option Text
nonempty_title title = if is_empty title then none else some title

inline_title : Text → Option Text
unfolding clean_title drop_markers is_whitespace
inline_title prefix =
    let value = trim_end_matches (λ c. is_whitespace c || is_one_of (text ":：") c) prefix in
    nonempty_title (clean_title (drop_markers drive_markers (before_bar value)))

abbrev label_prefixes : List Text
label_prefixes = text "类型：" ∷ text "分享：" ∷ text "网盘：" ∷ text "简介：" ∷ text "描述：" ∷ text "更多资源：" ∷ []

abbrev pub Titles : Type 0
Titles = List (Text × Text)

abbrev insert_title : Env → Titles → Text → List Found → Titles
insert_title env titles title [] = titles
insert_title env titles title (found ∷ urls) =
    insert_title env (insert (canonical_url_key env found.matched) title titles) title urls

module _ (env : Env) where
  abbrev is_no_title : Text → Bool
  is_no_title line =
      is_empty line
      || env.is_match (env.regex date_pattern) line
      || (starts_with (text "#") line && not (contains (text "名称") line))
      || any (λ prefix. starts_with prefix line) label_prefixes

  message_title_line : Text → Option Text
  unfolding clean_title trim
  message_title_line raw =
      let line = trim raw in
      let title = clean_title line in
      if is_no_title line
      then none
      else nonempty_title (trim (take (first_marker description_markers title) title))

  -- The loop over the lines, with `title_by_key` and `previous_text`.
  abbrev line_title : Text → List Found → Option Text → Option Text → Option Text
  line_title line [] previous default = none
  line_title line (first ∷ urls) previous default =
      filter_option (λ s. not (is_empty s))
        (or_option (inline_title (trim (take first.start line))) (or_option previous default))

  abbrev add_titles : Titles → List Found → Option Text → Titles
  add_titles titles urls none = titles
  add_titles titles urls (some title) = insert_title env titles title urls

  -- The body of the loop, for a trimmed line and the links in it.
  read_line : Option Text → Text → List Found → Titles × Option Text → Titles × Option Text
  unfolding trim inline_title message_title_line insert canonical_url_key
  read_line default line urls (titles, previous) =
      if is_empty line
      then (titles, previous)
      else if is_empty urls
      then (titles, or_option (message_title_line line) previous)
      else (add_titles titles urls (line_title line urls previous default), previous)

  pub titles_in : Option Text → List Text → Titles × Option Text → Titles
  unfolding trim read_line
  titles_in default [] (titles, previous) = titles
  titles_in default (raw ∷ lines) s =
      let line = trim raw in
      titles_in default lines
        (read_line default line (env.find_iter (env.regex link_pattern) line) s)

  -- A title that a link has stays.
  abbrev with_title : Titles → Option Text → Link → Link
  with_title titles default link =
      let found = or_option (lookup (canonical_url_key env link.url) titles) default in
      record link { work_title = or_option link.work_title found }

  abbrev pub with_titles : Titles → Option Text → List Link → List Link
  with_titles titles default [] = []
  with_titles titles default (link ∷ links) =
      with_title titles default link ∷ with_titles titles default links

  unfoldable pub associate_work_titles : List Link → Text → Option Text → List Link
  unfolding titles_in lookup canonical_url_key
  associate_work_titles links s default =
      with_titles (titles_in default (lines_of s) ([], none)) default links
