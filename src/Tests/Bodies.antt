-- ===== src/Tests/Bodies.antt =====
-- A reader of bytes that are there, and responses in pieces.
use panshou.Prelude.{
  ℕ, zero, suc, ◌≤◌, ◌<◌, ◌≡◌, refl, ◌∙◌, subst, ap, true, false, Option, none, some, some, List,
  [], ◌∷◌, ◌++◌, arith, is_empty, length, take, drop,
}
use panshou.Prelude.Results.{ok, err}
use panshou.Text.{Text, text}
use panshou.Http.Body.{
  Bytes, Arrival, chunk, Response, Decoders, actual_limit, read_limited_cooperative, read_response,
}
use panshou.Http.Body.Laws.{IsReader, Returns, read_limited-Returns}
use panshou.Http.Body.Limits.{content, Bounded, read_response-Bounded}
use panshou.Http.Stream.{unfold_all, raw_start, raw_step, bounded_step}
use panshou.Http.Stream.Raw.{end_of, Delivers, raw_stream-Delivers}
use panshou.Http.Stream.Capped.{Caps, bounded-Caps}

abbrev sample_decoders : Decoders
sample_decoders = record {
  Reader = Bytes;
  open_reader = λ coding bytes. bytes;
  read = λ r n. ok (take n r, drop n r);
}

take-drop : (n : ℕ) (bs : Bytes) → bs ≡ take n bs ++ drop n bs
take-drop zero bs = refl
take-drop (suc n) [] = refl
take-drop (suc n) (b ∷ bs) = ap (λ r. b ∷ r) (take-drop n bs)

take_short : (n : ℕ) (bs : Bytes) → length (take n bs) ≤ n
take_short zero bs = omega arith
take_short (suc n) [] = omega arith
take_short (suc n) (b ∷ bs) = omega (arith, take_short n bs)

take_none : (n : ℕ) (bs : Bytes) → 0 < n → is_empty (take n bs) ≡ true → bs ≡ []
take_none zero bs h e = absurd (omega arith)
take_none (suc n) [] h e = refl
take_none (suc n) (b ∷ bs) h e = absurd (ground arith)

sample_reads :
    (r : Bytes) (n : ℕ) (piece next : Bytes)
    → 0 < n
    → sample_decoders.read r n ≡ ok (piece, next)
    → (r ≡ piece ++ next)
      × (◌≡◌ {A = Option Text} none none)
      × (length piece ≤ n)
      × (is_empty piece ≡ true → (r ≡ []) × (◌≡◌ {A = Option Text} none none))
sample_reads r n piece next h e =
    let first : take n r ≡ piece = ground arith in
    let second : drop n r ≡ next = ground arith in
    (
      take-drop n r ∙ (λ i. first i ++ second i),
      refl,
      subst (λ p. length p ≤ n) first (take_short n r),
      λ nothing. (subst (λ p. is_empty p ≡ true → r ≡ []) first (take_none n r h) nothing, refl),
    )

sample_fails :
    (r : Bytes) (n : ℕ) (e : Text)
    → 0 < n
    → sample_decoders.read r n ≡ err e
    → ◌≡◌ {A = Option Text} none (some e)
sample_fails r n e h k = cc

abbrev sample-IsReader : IsReader sample_decoders
sample-IsReader = record {
  rest = λ r. r;
  failure = λ r. none;
  reads = sample_reads;
  fails = sample_fails;
}

abbrev arrivals : List Arrival
arrivals = chunk (1 ∷ 2 ∷ []) ∷ chunk [] ∷ chunk (3 ∷ 4 ∷ 5 ∷ []) ∷ []

abbrev response : Response
response = record {
  content_encoding = some (ok (text "gzip, identity"));
  content_length = none;
  arrivals = arrivals;
}

read_limited-Returns_example :
    Returns 3 (1 ∷ 2 ∷ 3 ∷ []) none (read_limited_cooperative sample_decoders 3 (1 ∷ 2 ∷ 3 ∷ []))
read_limited-Returns_example =
    read_limited-Returns sample_decoders sample-IsReader 3 (1 ∷ 2 ∷ 3 ∷ [])

read_response-Bounded_example :
    Bounded (actual_limit 5) response (read_response sample_decoders response 5)
read_response-Bounded_example = read_response-Bounded sample_decoders sample-IsReader response 5

raw_stream-Delivers_example :
    Delivers 4 4
      (content arrivals)
      (end_of arrivals)
      (unfold_all (raw_step 4) 10 (raw_start arrivals))
raw_stream-Delivers_example = raw_stream-Delivers 4 arrivals

bounded-Caps_example : Caps 2 2 (1 ∷ 2 ∷ 3 ∷ []) none (
    unfold_all
      (bounded_step sample_decoders 2)
      4
      (record { reader = 1 ∷ 2 ∷ 3 ∷ []; delivered = 0; over = false }))
bounded-Caps_example = bounded-Caps sample_decoders sample-IsReader 2 (1 ∷ 2 ∷ 3 ∷ [])
