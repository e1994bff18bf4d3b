-- ===== src/Update/Sums.antt =====
-- verify_checksum in src/update/mod.rs, on what the tool `sha256sum` prints.
use panshou.Prelude.{
  ℕ, ◌≡◌, refl, sym, ◌∙◌, ap, ◌↔◌, Bool, true, false, not, List, [], ◌∷◌, ◌++◌, map, arith, ◌==◌,
  All, if◌then◌else◌, is_empty, retain, all, Bool-cases, inl, inr, append-nil, ==_iff,
}
use panshou.Prelude.Results.{ok}
use panshou.Text.{
  Text, text_beq, text_beq_iff, is_whitespace, trim_start_matches, starts_with, to_ascii_lowercase,
  add_first,
}
use panshou.Env.{Env}
use panshou.Core.Link.Titles.{lines_of}
use panshou.Http.Body.{Bytes}
use panshou.Update.Checksum.{
  is_part, split_where, split_whitespace, add_checksum, checksums_for, compare, verify_checksum,
}

-- A line: the digest, two characters that tell text from binary mode, and the name.
pub record SumLine : Type 0 where
  pub digest : Text
  pub name : Text
  pub binary : Bool

abbrev pub print_line : SumLine → Text
print_line l = l.digest ++ b' ' ∷ (if l.binary then b'*' else b' ') ∷ l.name

abbrev pub print_sums : List SumLine → Text
print_sums [] = []
print_sums (l ∷ ls) = print_line l ++ b'\n' ∷ print_sums ls

-- Words: not empty, and without white space.
abbrev pub is_none_of : (ℕ → Bool) → Text → Bool
is_none_of p t = all (λ c. not (p c)) t

abbrev pub IsWord : Text → Type 0
IsWord t = (is_empty t ≡ false) × (is_none_of is_whitespace t ≡ true)

abbrev pub IsLine : SumLine → Type 0
IsLine l = IsWord l.digest × IsWord l.name × (starts_with (b'*' ∷ []) l.name ≡ false)

abbrev pub is_named : Text → SumLine → Bool
is_named name l = text_beq l.name name

module _ (p : ℕ → Bool) where
  add_to_first :
      (b : Bool) (c : ℕ) (t part : Text) (parts : List Text)
      → b ≡ false
      → (if b then [] ∷ (t ++ part) ∷ parts else add_first c ((t ++ part) ∷ parts))
        ≡ (c ∷ t ++ part) ∷ parts
  add_to_first true c t part parts h = cc
  add_to_first false c t part parts h = refl

  split_where-word :
      (t s part : Text) (parts : List Text)
      → is_none_of p t ≡ true
      → split_where p s ≡ part ∷ parts
      → split_where p (t ++ s) ≡ (t ++ part) ∷ parts
  split_where-word [] s part parts w h = h
  split_where-word (c ∷ t) s part parts w h =
      rw (split_where-word t s part parts (ground arith) h)
        (add_to_first (p c) c t part parts (ground arith))

  split_where-one : (t : Text) → is_none_of p t ≡ true → split_where p t ≡ t ∷ []
  split_where-one t w =
      let whole = split_where-word t [] [] [] w refl in
      sym (ap (split_where p) (append-nil t)) ∙ whole ∙ ap (λ s. s ∷ []) (append-nil t)

  after_space : (s : Text) → p b' ' ≡ true → split_where p (b' ' ∷ s) ≡ [] ∷ split_where p s
  after_space s space = rw space refl

  kept :
      (d n : Text)
      → is_empty d ≡ false
      → is_empty n ≡ false
      → retain is_part ((d ++ []) ∷ n ∷ []) ≡ d ∷ n ∷ []
  kept d n some_d some_n = rw (append-nil d) (rw some_d (rw some_n refl))

  columns_where :
      (d n : Text) (binary : Bool)
      → p b' ' ≡ true
      → p b'*' ≡ false
      → is_empty d ≡ false
      → is_empty n ≡ false
      → is_none_of p d ≡ true
      → is_none_of p n ≡ true
      → retain is_part (split_where p (d ++ b' ' ∷ (if binary then b'*' else b' ') ∷ n))
        ≡ d ∷ (if binary then b'*' ∷ n else n) ∷ []
  columns_where d n true space star some_d some_n wd wn =
      let last = split_where-one (b'*' ∷ n) (ground (arith, wn)) in
      let rest = after_space (b'*' ∷ n) space ∙ ap (λ parts. [] ∷ parts) last in
      let whole = split_where-word d (b' ' ∷ b'*' ∷ n) [] ((b'*' ∷ n) ∷ []) wd rest in
      ap (retain is_part) whole ∙ kept d (b'*' ∷ n) some_d refl
  columns_where d n false space star some_d some_n wd wn =
      let next = after_space n space ∙ ap (λ parts. [] ∷ parts) (split_where-one n wn) in
      let rest = after_space (b' ' ∷ n) space ∙ ap (λ parts. [] ∷ parts) next in
      let whole = split_where-word d (b' ' ∷ b' ' ∷ n) [] ([] ∷ n ∷ []) wd rest in
      ap (retain is_part) whole ∙ kept d n some_d some_n

columns :
    (l : SumLine)
    → IsLine l
    → split_whitespace (print_line l) ≡ l.digest ∷ (if l.binary then b'*' ∷ l.name else l.name) ∷ []
unfolding split_whitespace
columns l h = columns_where is_whitespace l.digest l.name l.binary refl refl h.0.0 h.1.0 h.0.1 h.1.1

lines_of-line :
    (line rest : Text)
    → is_none_of (λ c. c == b'\n') line ≡ true
    → lines_of (line ++ b'\n' ∷ rest) ≡ line ∷ lines_of rest
lines_of-line [] rest h = refl
lines_of-line (c ∷ line) rest h = rw (lines_of-line line rest (ground arith)) (ground arith)

newline_clash : (p : ℕ → Bool) (c : ℕ) → p b'\n' ≡ true → p c ≡ false → (c == b'\n') ≡ false
newline_clash p c space h = elim (Bool-cases (c == b'\n')) [
  | inl k ↦ (let same : c ≡ b'\n' = (==_iff c b'\n').0 k in cc)
  | inr k ↦ k
]

not_newline :
    (p : ℕ → Bool) (t : Text)
    → p b'\n' ≡ true
    → is_none_of p t ≡ true
    → is_none_of (λ c. c == b'\n') t ≡ true
not_newline p [] space w = refl
not_newline p (c ∷ t) space w =
    ground (arith, not_newline p t space (ground arith), newline_clash p c space)

line_in_one :
    (p : ℕ → Bool) (d n : Text) (m : ℕ)
    → p b'\n' ≡ true
    → is_none_of p d ≡ true
    → is_none_of p n ≡ true
    → (m == b'\n') ≡ false
    → is_none_of (λ c. c == b'\n') (d ++ b' ' ∷ m ∷ n) ≡ true
line_in_one p [] n m space wd wn k = ground (arith, not_newline p n space wn)
line_in_one p (c ∷ d) n m space wd wn k =
    ground (arith, line_in_one p d n m space (ground arith) wn k, newline_clash p c space)

not_starred :
    (n : Text) → starts_with (b'*' ∷ []) n ≡ false → trim_start_matches (λ c. c == b'*') n ≡ n
not_starred [] h = refl
not_starred (c ∷ n) h = ground arith

add_checksum-columns :
    (name d n : Text) (binary : Bool) (rest : List Text)
    → starts_with (b'*' ∷ []) n ≡ false
    → add_checksum name (d ∷ (if binary then b'*' ∷ n else n) ∷ []) rest
      ≡ (if text_beq n name then d ∷ rest else rest)
add_checksum-columns name d n true rest h = rw (not_starred n h) refl
add_checksum-columns name d n false rest h = rw (not_starred n h) refl

mark : (binary : Bool) → ((if binary then b'*' else b' ') == b'\n') ≡ false
mark true = refl
mark false = refl

abbrev digest_of : SumLine → Text
digest_of l = l.digest

map_if :
    (b : Bool) (l : SumLine) (ls : List SumLine)
    → (if b then l.digest ∷ map digest_of ls else map digest_of ls)
      ≡ map digest_of (if b then l ∷ ls else ls)
map_if true l ls = refl
map_if false l ls = refl

checksums_for-print_sums :
    (name : Text) (ls : List SumLine)
    → All IsLine ls
    → checksums_for name (lines_of (print_sums ls)) ≡ map digest_of (retain (is_named name) ls)
unfolding checksums_for
checksums_for-print_sums name [] h = refl
checksums_for-print_sums name (l ∷ ls) h =
    rw
      (lines_of-line (print_line l) (print_sums ls) (
        line_in_one is_whitespace l.digest l.name (if l.binary then b'*' else b' ') refl h.0.0.1
          h.0.1.1 (mark l.binary)))
      (rw (columns l h.0) (
        rw (checksums_for-print_sums name ls h.1) (
          add_checksum-columns name l.digest l.name l.binary
            (map digest_of (retain (is_named name) ls)) h.0.2
          ∙ map_if (is_named name l) l (retain (is_named name) ls))))

compare_iff :
    (env : Env) (bytes : Bytes) (name : Text) (ls : List SumLine)
    → (compare env bytes name (map digest_of ls) ≡ ok tt) ↔ (
        (l : SumLine) × (ls ≡ l ∷ [])
        × (to_ascii_lowercase l.digest ≡ to_ascii_lowercase (env.sha256_hex bytes)))
unfolding to_ascii_lowercase
compare_iff env bytes name [] = (λ e. cc, λ (x, s, k). cc)
compare_iff env bytes name (l ∷ []) =
    let equal =
      text_beq_iff (to_ascii_lowercase l.digest) (to_ascii_lowercase (env.sha256_hex bytes)) in
    (
      λ e. (l, refl, equal.0 (ground arith)),
      λ (x, s, k).
          let same : x ≡ l = cc in
          rw (equal.1 (ap (λ y. to_ascii_lowercase y.digest) (sym same) ∙ k)) refl,
    )
compare_iff env bytes name (l ∷ m ∷ ls) = (λ e. cc, λ (x, s, k). cc)

-- Of what `sha256sum` prints for files whose names have no white space and do not start with a star,
-- in text or binary mode, the bytes are accepted for a file exactly if one line is for it, and its
-- digest is that of the bytes, in lower or upper case.
pub verify_checksum-print_sums :
    (env : Env) (bytes : Bytes) (ls : List SumLine) (name : Text)
    → All IsLine ls
    → (verify_checksum env bytes (print_sums ls) name ≡ ok tt) ↔ (
        (l : SumLine) × (retain (is_named name) ls ≡ l ∷ [])
        × (to_ascii_lowercase l.digest ≡ to_ascii_lowercase (env.sha256_hex bytes)))
unfolding verify_checksum
verify_checksum-print_sums env bytes ls name h =
    rw (checksums_for-print_sums name ls h) (compare_iff env bytes name (retain (is_named name) ls))
