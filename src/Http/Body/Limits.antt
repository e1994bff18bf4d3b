-- ===== src/Http/Body/Limits.antt =====
-- What `read_response` of src/http/body.rs returns at most.
use panshou.Prelude.{
  ℕ, zero, suc, ◌*◌, ◌-◌, ◌≤◌, ◌<◌, ◌≡◌, refl, sym, ◌∙◌, ap, subst, max, Bool, true, false, Option,
  none, some, List, [], ◌∷◌, ◌++◌, append-nil, append_assoc, arith, ltb, length, length-append, all,
  Bool-cases, inl, inr, ◌⊎◌,
}
use panshou.Prelude.Results.{ok, err, Result-cases}
use panshou.Text.{Text, trim, to_ascii_lowercase}
use panshou.Http.Body.{
  Bytes, default_response_limit, max_decompressed_bytes, BodyResult, Arrival, chunk, broken,
  Response, Decoders, actual_limit, is_longer, decompression_limit, decoded_limit, read_chunks,
  is_identity, is_decodable, codings_of, read_limited_cooperative, then_decode, decode_each,
  decode_encoded, decode_body, receive, encoding_of, read_response,
}
use panshou.Http.Body.Laws.{IsReader, Returns, read_limited-Returns}

-- All that arrives.
abbrev pub content : List Arrival → Bytes
content [] = []
content (chunk c ∷ arrivals) = c ++ content arrivals
content (broken e ∷ arrivals) = []

read_chunks-content :
    (limit : ℕ) (bytes : Bytes) (arrivals : List Arrival) {out : Bytes}
    → length bytes ≤ limit
    → read_chunks limit bytes arrivals ≡ ok out
    → (out ≡ bytes ++ content arrivals) × (length out ≤ limit)
unfolding read_chunks
read_chunks-content limit bytes [] {out} h e =
    let same : bytes ≡ out = ground arith in
    subst (λ b. (b ≡ bytes ++ []) × (length b ≤ limit)) same (sym (append-nil bytes), h)
read_chunks-content limit bytes (broken f ∷ arrivals) {out} h e = cc
read_chunks-content limit bytes (chunk c ∷ arrivals) {out} h e =
    elim (Bool-cases (ltb (limit - length bytes) (length c))) [
      | inl many ↦ absurd (ground arith)
      | inr few ↦
          let rest =
            read_chunks-content limit (bytes ++ c) arrivals {out = out}
              (ground (arith, length-append bytes c)) (rw few at e) in
          (rest.0 ∙ append_assoc bytes c (content arrivals), rest.1)
    ]

abbrev only_identity : List Text → Bool
only_identity codings = all (λ raw. is_identity (to_ascii_lowercase (trim raw))) codings

-- No coding but `identity`.
abbrev pub is_plain : Option Text → Bool
is_plain encoding = only_identity (codings_of encoding)

-- The bytes as they are, or decoded ones within the limit.
abbrev DecodeOk : (limit : ℕ) → Bytes → Option (BodyResult Bytes) → Type 0
DecodeOk limit bytes none = ⊥
DecodeOk limit bytes (some (err e)) = Unit
DecodeOk limit bytes (some (ok out)) = (out ≡ bytes) ⊎ (length out ≤ limit)

module _ (d : Decoders) (laws : IsReader d) where
  then_decode-DecodeOk :
      (limit : ℕ) (bytes read : Bytes) (failure : Option Text)
      (next : Bytes → Option (BodyResult Bytes)) (r : Option (BodyResult Bytes))
      → Returns limit read failure r
      → ((bs : Bytes) → DecodeOk limit bs (next bs))
      → DecodeOk limit bytes (then_decode d next r)
  then_decode-DecodeOk limit bytes read failure next none h go = h
  then_decode-DecodeOk limit bytes read failure next (some (err e)) h go = tt
  then_decode-DecodeOk limit bytes read failure next (some (ok bs)) h go = weaken (next bs) (go bs)
    where
      weaken : (o : Option (BodyResult Bytes)) → DecodeOk limit bs o → DecodeOk limit bytes o
      weaken none k = k
      weaken (some (err e)) k = tt
      weaken (some (ok out)) (inl e) = inr (rw e h.1)
      weaken (some (ok out)) (inr k) = inr k

  decode_each-DecodeOk :
      (limit : ℕ) (codings : List Text) (bytes : Bytes)
      → DecodeOk limit bytes (decode_each d limit codings bytes)
  unfolding decode_each
  decode_each-DecodeOk limit [] bytes = inl refl
  decode_each-DecodeOk limit (raw ∷ codings) bytes =
      let coding = to_ascii_lowercase (trim raw) in
      elim (Bool-cases (is_identity coding)) [
        | inl e ↦ rw e (decode_each-DecodeOk limit codings bytes)
        | inr e ↦ elim (Bool-cases (is_decodable coding)) [
          | inl k ↦
              rw (e, k)
                (then_decode-DecodeOk limit bytes (laws.rest (d.open_reader coding bytes))
                  (laws.failure (d.open_reader coding bytes)) (decode_each d limit codings)
                  (read_limited_cooperative d limit (d.open_reader coding bytes))
                  (read_limited-Returns d laws limit (d.open_reader coding bytes))
                  (decode_each-DecodeOk limit codings))
          | inr k ↦ rw (e, k) tt
        ]
      ]

  decode_each-plain :
      (limit : ℕ) (codings : List Text) (bytes : Bytes)
      → only_identity codings ≡ true
      → decode_each d limit codings bytes ≡ some (ok bytes)
  unfolding decode_each
  decode_each-plain limit [] bytes h = refl
  decode_each-plain limit (raw ∷ codings) bytes h =
      ground (arith, decode_each-plain limit codings bytes)

decoded_limit_bounds :
    (limit : ℕ) (known : Option ℕ)
    → (decoded_limit limit known ≤ max_decompressed_bytes)
      × (limit < default_response_limit → decoded_limit limit known ≤ limit)
unfolding decoded_limit decompression_limit
decoded_limit_bounds limit none = ground arith
decoded_limit_bounds limit (some n) = ground arith

-- What decoding may come to, by the length that was announced: 64 MiB at most; and where the length is
-- known and not 0, the hundredfold of it at most, or 400 KiB if that is more.
abbrev pub CapsDecoded : Option ℕ → ℕ → Type 0
CapsDecoded none size = size ≤ 67108864
CapsDecoded (some n) size = (size ≤ 67108864) × ((n ≡ 0) ⊎ (size ≤ max 409600 (n * 100)))

decoded_limit-CapsDecoded :
    (limit : ℕ) (known : Option ℕ) (size : ℕ)
    → size ≤ decoded_limit limit known
    → CapsDecoded known size
unfolding decoded_limit decompression_limit
decoded_limit-CapsDecoded limit none size h = ground arith
decoded_limit-CapsDecoded limit (some zero) size h = (ground arith, inl refl)
decoded_limit-CapsDecoded limit (some (suc n)) size h = (ground arith, inr (ground arith))

-- What `receive` returns is all that arrived, within the limit.
receive-content :
    (limit : ℕ) (response : Response) {encoding : Option Text} {bytes : Bytes}
    → receive limit response ≡ ok (encoding, bytes)
    → (encoding_of response.content_encoding ≡ ok encoding)
      × (bytes ≡ content response.arrivals)
      × (length bytes ≤ limit)
unfolding receive
receive-content limit response {encoding} {bytes} h =
    elim (Result-cases (encoding_of response.content_encoding)) [
      | inr (f, e) ↦ absurd (ground arith)
      | inl (t, e) ↦ elim (Bool-cases (is_longer limit response.content_length)) [
        | inl k ↦ absurd (ground arith)
        | inr k ↦ elim (Result-cases (read_chunks limit [] response.arrivals)) [
          | inr (f, c) ↦ absurd (ground arith)
          | inl (out, c) ↦
              let laws =
                read_chunks-content limit [] response.arrivals {out = out} (omega arith) c in
              let same : out ≡ bytes = ground arith in
              let text_same : t ≡ encoding = ground arith in
              (e ∙ ap ok text_same, sym same ∙ laws.0, subst (λ b. length b ≤ limit) same laws.1)
        ]
      ]
    ]

-- The header names no coding but `identity`.
abbrev pub plain_header : Option (BodyResult Text) → Bool
plain_header none = is_plain none
plain_header (some (ok t)) = is_plain (some t)
plain_header (some (err e)) = false

-- A body that is returned.
abbrev pub Bounded : (limit : ℕ) → Response → Option (BodyResult Bytes) → Type 0
Bounded limit response none = ⊥
Bounded limit response (some (err e)) = Unit
Bounded limit response (some (ok out)) =
    (length out ≤ max limit max_decompressed_bytes)
    × (limit < default_response_limit → length out ≤ limit)
    × (plain_header response.content_encoding ≡ true
        → (out ≡ content response.arrivals) × (length out ≤ limit))
    × (((out ≡ content response.arrivals) × (length out ≤ limit))
        ⊎ CapsDecoded response.content_length (length out))

header_text :
    (header : Option (BodyResult Text)) {encoding : Option Text}
    → encoding_of header ≡ ok encoding
    → plain_header header ≡ true
    → is_plain encoding ≡ true
header_text none {encoding} h k =
    let same : none ≡ encoding = ground arith in subst (λ t. is_plain t ≡ true) same k
header_text (some (ok t)) {encoding} h k =
    let same : some t ≡ encoding = ground arith in subst (λ t. is_plain t ≡ true) same k
header_text (some (err e)) h k = cc

module _ (d : Decoders) (laws : IsReader d) where
  decoded-Bounded :
      (limit : ℕ) (response : Response) (bytes : Bytes) (r : Option (BodyResult Bytes))
      → (bytes ≡ content response.arrivals) × (length bytes ≤ limit)
      → (plain_header response.content_encoding ≡ true → r ≡ some (ok bytes))
      → DecodeOk (decoded_limit limit response.content_length) bytes r
      → Bounded limit response r
  decoded-Bounded limit response bytes none h plain k = k
  decoded-Bounded limit response bytes (some (err e)) h plain k = tt
  decoded-Bounded limit response bytes (some (ok out)) h plain (inl e) =
      let whole : length out ≤ limit = subst (λ b. length b ≤ limit) (sym e) h.1 in
      (omega arith, (λ few. whole), (λ k. (e ∙ h.0, whole)), inl (e ∙ h.0, whole))
  decoded-Bounded limit response bytes (some (ok out)) h plain (inr k) =
      let bounds = decoded_limit_bounds limit response.content_length in
      (
        omega (arith, bounds.0),
        (λ few. omega (arith, bounds.1 few)),
        (λ p.
            let e : out ≡ bytes = ground (arith, plain p) in
            (e ∙ h.0, subst (λ b. length b ≤ limit) (sym e) h.1)),
        inr (decoded_limit-CapsDecoded limit response.content_length (length out) k),
      )

  received-Bounded :
      (limit : ℕ) (response : Response) (r : BodyResult (Option Text × Bytes))
      → receive limit response ≡ r
      → Bounded limit response (decode_body d limit response.content_length r)
  unfolding decode_encoded
  received-Bounded limit response (err e) h = tt
  received-Bounded limit response (ok (encoding, bytes)) h =
      let whole = receive-content limit response {encoding = encoding} {bytes = bytes} h in
      let allowed = decoded_limit limit response.content_length in
      decoded-Bounded limit response bytes (decode_each d allowed (codings_of encoding) bytes)
        (whole.1, whole.2)
        (λ p.
          decode_each-plain d laws allowed (codings_of encoding) bytes
            (header_text response.content_encoding whole.0 p))
        (decode_each-DecodeOk d laws allowed (codings_of encoding) bytes)

  -- Reading a response ends, whatever arrives. A body that is returned is no longer than the limit or
  -- 64 MiB, whichever is more, and no longer than a limit below the default; without a content coding
  -- it is all that arrived, and within the limit. A body that is not all that arrived, within the
  -- limit, is no longer than 64 MiB, and no longer than the hundredfold of the announced length, or
  -- 400 KiB if that is more, where a length is announced that is not 0.
  pub read_response-Bounded :
      (response : Response) (limit : ℕ)
      → Bounded (actual_limit limit) response (read_response d response limit)
  unfolding read_response
  read_response-Bounded response limit =
      received-Bounded (actual_limit limit) response (receive (actual_limit limit) response) refl
