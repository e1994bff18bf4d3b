-- ===== src/Tests/Extracting.antt =====
-- Runs of the extraction of links, with simple searches in place of the regular expressions.
use panshou.Prelude.{
  ℕ, Bool, ◌||◌, suc, ◌+◌, ◌≡◌, refl, ◌==◌, Option, none, some, List, [], ◌∷◌, drop, take, map,
  if◌then◌else◌,
}
use panshou.Prelude.Keyed.Only.{HasOne}
use panshou.Text.{Text, text, text_eq, find, starts_with}
use panshou.Env.{Found, Env}
use panshou.Core.Model.{Link}
use panshou.Core.Link.Passwords.{before}
use panshou.Core.Link.Extract.{url_key, extract_links}
use panshou.Core.Link.Extract.Laws.{has_code, occurrences, some_code, extract_links-HasOne}
use panshou.Tests.{sample_env, baidu_url, first_link, quark_link}

abbrev ends_link : ℕ → Bool
ends_link c = c == b' ' || c == b'\n'

abbrev links_from : ℕ → Text → List Found
links_from i [] = []
links_from i (c ∷ s) =
    let rest = links_from (suc i) s in
    if starts_with (text "https://") (c ∷ s)
    then record { start = i; matched = before ends_link (c ∷ s) } ∷ rest
    else rest

abbrev codes_in : Text → List Text
codes_in s = elim (find (text "pwd ") s) [ none ↦ [] | some i ↦ take 4 (drop (i + 4) s) ∷ [] ]

abbrev link_env : Env
link_env = record sample_env {
  find_iter = λ r s. links_from 0 s;
  captures_iter = λ r s. codes_in s;
}

abbrev message : Text
message =
    text
      "Alpha\nhttps://pan.baidu.com/s/1 pwd ab12\nhttps://PAN.baidu.com/s/1/\nBeta: https://pan.quark.cn/s/2 https://example.com/x"

-- The two spellings of one link are one, and the host that is no drive is left out.
extracted :
    map {B = Text × Option Text × Option Text}
      (λ l. (l.url, l.password, l.work_title))
      (extract_links link_env message)
    ≡ (baidu_url, some (text "ab12"), some (text "Alpha"))
      ∷ (text "https://pan.quark.cn/s/2", none, some (text "Beta"))
      ∷ []
unfolding extract_links
extracted = refl

extract_links-HasOne_example :
    HasOne
      (url_key link_env)
      baidu_url
      (occurrences link_env message)
      (extract_links link_env message)
      (λ link. has_code link_env link ≡ some_code link_env baidu_url (occurrences link_env message))
extract_links-HasOne_example = extract_links-HasOne link_env message baidu_url

abbrev untitled : List Link
untitled = first_link ∷ quark_link ∷ []
