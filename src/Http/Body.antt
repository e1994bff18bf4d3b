-- ===== src/Http/Body.antt =====
-- src/http/body.rs: reading a response within limits. Bytes are numbers; the connection is a list of
-- what arrives, and a decoder is a parameter that is asked for at most so many bytes at a time.
pub mod Laws
pub mod Limits
use panshou.Prelude.{
  ℕ, zero, suc, ◌+◌, ◌-◌, ◌*◌, ◌^◌, min, max, Bool, true, false, ◌||◌, Option, none, some, List, [],
  ◌∷◌, ◌++◌, ltb, ◌==◌, if◌then◌else◌, is_empty, length, unwrap_or, filter_option,
}
use panshou.Prelude.Results.{Result, ok, err, ◌>>=◌, ◌>>◌, fail_if}
use panshou.Text.{Text, text, text_beq, trim, to_ascii_lowercase, split}

abbrev pub Bytes : Type 0
Bytes = List ℕ

abbrev pub default_response_limit : ℕ
default_response_limit = 16777216

abbrev pub max_decompressed_bytes : ℕ
max_decompressed_bytes = 67108864

pub data BodyError : Type 0 where
  too_large : (limit : ℕ) → BodyError
  invalid_encoding unsupported_encoding too_many_layers : BodyError
  network decode_failed : Text → BodyError

abbrev pub BodyResult : Type 0 → Type 0
BodyResult A = Result BodyError A

-- What arrives on the connection, until it ends.
pub data Arrival : Type 0 where
  chunk : Bytes → Arrival
  broken : Text → Arrival

-- The header `Content-Encoding`, with an error where it is no text.
pub record Response : Type 0 where
  pub content_encoding : Option (BodyResult Text)
  pub content_length : Option ℕ
  pub arrivals : List Arrival

-- The decoders, by coding: what one read of at most so many bytes gives. No bytes mean the end.
pub record Decoders : Type 1 where
  pub Reader : Type 0
  pub open_reader : Text → Bytes → Reader
  pub read : Reader → ℕ → Result Text (Bytes × Reader)

abbrev pub is_positive : ℕ → Bool
is_positive n = ltb 0 n

-- A limit of 0 stands for the default.
abbrev pub actual_limit : ℕ → ℕ
actual_limit limit = if limit == 0 then default_response_limit else limit

-- `saturating_mul` on `u64`.
abbrev saturating_mul : ℕ → ℕ → ℕ
saturating_mul a b = min (a * b) 18446744073709551615

abbrev clamp : ℕ → ℕ → ℕ → ℕ
clamp n low high = max low (min n high)

abbrev limit_of : Option ℕ → ℕ
limit_of none = max_decompressed_bytes
limit_of (some n) = clamp (saturating_mul n 100) 409600 max_decompressed_bytes

unfoldable pub decompression_limit : Option ℕ → ℕ
decompression_limit compressed_length = limit_of (filter_option is_positive compressed_length)

-- A smaller limit of the source holds for the decoded content too.
unfoldable pub decoded_limit : (limit : ℕ) → Option ℕ → ℕ
unfolding decompression_limit
decoded_limit limit known_length =
    if ltb limit default_response_limit
    then min (decompression_limit known_length) limit
    else decompression_limit known_length

unfoldable pub read_chunks : (limit : ℕ) → Bytes → List Arrival → BodyResult Bytes
read_chunks limit bytes [] = ok bytes
read_chunks limit bytes (broken e ∷ arrivals) = err (network e)
read_chunks limit bytes (chunk c ∷ arrivals) =
    let remaining = limit - length bytes in
    let rest = read_chunks limit (bytes ++ c) arrivals in
    if ltb remaining (length c) then err (too_large limit) else rest

-- `split(',').rev()`.
abbrev reverse_onto : List Text → List Text → List Text
reverse_onto done [] = done
reverse_onto done (c ∷ cs) = reverse_onto (c ∷ done) cs

abbrev pub codings_of : Option Text → List Text
codings_of encoding = reverse_onto [] (split b',' (unwrap_or encoding (text "identity")))

abbrev pub is_identity : Text → Bool
is_identity coding = is_empty coding || text_beq coding (text "identity")

abbrev pub is_decodable : Text → Bool
is_decodable coding =
    text_beq coding (text "gzip")
    || text_beq coding (text "x-gzip")
    || text_beq coding (text "deflate")
    || text_beq coding (text "br")

abbrev pub encoding_of : Option (BodyResult Text) → BodyResult (Option Text)
encoding_of none = ok none
encoding_of (some (ok t)) = ok (some t)
encoding_of (some (err e)) = err e

abbrev pub is_longer : ℕ → Option ℕ → Bool
is_longer limit none = false
is_longer limit (some n) = ltb limit n

-- The body as it is on the wire.
unfoldable pub receive : (limit : ℕ) → Response → BodyResult (Option Text × Bytes)
unfolding read_chunks
receive limit response = do
  encoding ← encoding_of response.content_encoding
  fail_if (is_longer limit response.content_length) (too_large limit)
  bytes ← read_chunks limit [] response.arrivals
  ok (encoding, bytes)

module _ (decoders : Decoders) where
  open decoders use {Reader, open_reader, read}

  -- What follows a read, given the loop from the bytes and the reader on.
  abbrev pub after_read :
      (limit : ℕ)
      → Bytes
      → (Bytes → Reader → Option (BodyResult Bytes))
      → Result Text (Bytes × Reader)
      → Option (BodyResult Bytes)
  after_read limit bytes loop (err e) = some (err (decode_failed e))
  after_read limit bytes loop (ok (piece, next)) =
      if is_empty piece
      then some (ok bytes)
      else if ltb (limit - length bytes) (length piece)
      then some (err (too_large limit))
      else loop (bytes ++ piece) next

  -- The loop on fuel; `none` means that the fuel ran out.
  unfoldable pub read_loop : ℕ → (limit : ℕ) → Bytes → Reader → Option (BodyResult Bytes)
  read_loop zero limit bytes reader = none
  read_loop (suc fuel) limit bytes reader =
      after_read limit bytes (read_loop fuel limit)
        (read reader (min 8192 (limit - length bytes + 1)))

  -- Every round but the last adds a byte at least, so `limit + 2` rounds are enough.
  unfoldable pub read_limited_cooperative : (limit : ℕ) → Reader → Option (BodyResult Bytes)
  unfolding read_loop
  read_limited_cooperative limit reader = read_loop (suc (suc limit)) limit [] reader

  abbrev then_decode :
      (Bytes → Option (BodyResult Bytes)) → Option (BodyResult Bytes) → Option (BodyResult Bytes)
  then_decode next none = none
  then_decode next (some (err e)) = some (err e)
  then_decode next (some (ok bytes)) = next bytes

  unfoldable pub decode_each : (limit : ℕ) → List Text → Bytes → Option (BodyResult Bytes)
  unfolding read_limited_cooperative trim to_ascii_lowercase
  decode_each limit [] bytes = some (ok bytes)
  decode_each limit (raw ∷ codings) bytes =
      let coding = to_ascii_lowercase (trim raw) in
      let next = decode_each limit codings in
      if is_identity coding
      then next bytes
      else if is_decodable coding
      then then_decode next (read_limited_cooperative limit (open_reader coding bytes))
      else some (err unsupported_encoding)

  -- `decode_encoded`: the codings in reverse.
  unfoldable pub decode_encoded : Bytes → Option Text → (limit : ℕ) → Option (BodyResult Bytes)
  unfolding decode_each
  decode_encoded bytes encoding limit = decode_each limit (codings_of encoding) bytes

  abbrev pub decode_body :
      (limit : ℕ) → Option ℕ → BodyResult (Option Text × Bytes) → Option (BodyResult Bytes)
  decode_body limit known_length (err e) = some (err e)
  decode_body limit known_length (ok (encoding, bytes)) =
      decode_encoded bytes encoding (decoded_limit limit known_length)

  unfoldable pub read_response : Response → (limit : ℕ) → Option (BodyResult Bytes)
  unfolding receive decode_encoded decoded_limit
  read_response response limit =
      decode_body (actual_limit limit) response.content_length
        (receive (actual_limit limit) response)
