-- ===== src/Http/Stream.antt =====
-- src/http/stream.rs: a response as a stream of pieces. `try_unfold` runs a step on a state until it
-- ends or fails; the adapters between a stream and a reader, and the decoders, are third-party.
pub mod Raw
pub mod Capped
use panshou.Prelude.{
  ℕ, zero, suc, ◌+◌, ◌-◌, min, max, Bool, true, false, not, ◌&&◌, ◌||◌, Option, none, some, List,
  [], ◌∷◌, ◌++◌, ltb, ◌==◌, if◌then◌else◌, is_empty, length, take, drop,
}
use panshou.Prelude.Results.{Result, ok, err, ◌>>=◌, ◌>>◌, fail_if}
use panshou.Text.{Text, text, trim, to_ascii_lowercase, split}
use panshou.Http.Body.{
  Bytes, BodyError, too_large, unsupported_encoding, too_many_layers, decode_failed, network,
  BodyResult, Arrival, chunk, broken, Decoders, is_longer, is_identity, is_decodable, decoded_limit,
}

abbrev pub max_piece : ℕ
max_piece = 32768

-- One step of an unfolding, and how it ends.
pub data Item (S : Type 0) : Type 0 where
  item : Bytes → S → Item S
  finished : Item S
  failed : BodyError → Item S

pub data End : Type 0 where
  ended : End
  broke : BodyError → End

abbrev pub before_rest : Bytes → Option (List Bytes × End) → Option (List Bytes × End)
before_rest piece none = none
before_rest piece (some (pieces, end)) = some (piece ∷ pieces, end)

module _ {S : Type 0} (step : S → Item S) where
  abbrev pub after_step : (S → Option (List Bytes × End)) → Item S → Option (List Bytes × End)
  after_step loop (item piece s) = before_rest piece (loop s)
  after_step loop finished = some ([], ended)
  after_step loop (failed e) = some ([], broke e)

  -- The pieces and the end, on fuel; `none` means that the fuel ran out.
  unfoldable pub unfold_all : ℕ → S → Option (List Bytes × End)
  unfold_all zero s = none
  unfold_all (suc fuel) s = after_step (unfold_all fuel) (step s)

-- The codings of all headers; at most eight that decode.
abbrev pub push_coding : List Text → Text → BodyResult (List Text)
push_coding codings coding =
    if not (is_identity coding || is_decodable coding)
    then err unsupported_encoding
    else if is_identity coding
    then ok codings
    else if length codings == 8
    then err too_many_layers
    else ok (codings ++ coding ∷ [])

abbrev pub push_codings : List Text → List Text → BodyResult (List Text)
push_codings codings [] = ok codings
push_codings codings (raw ∷ more) =
    push_coding codings (to_ascii_lowercase (trim raw)) >>= λ cs. push_codings cs more

abbrev pub push_headers : List Text → List (BodyResult Text) → BodyResult (List Text)
push_headers codings [] = ok codings
push_headers codings (header ∷ headers) = do
  value ← header
  cs ← push_codings codings (split b',' value)
  push_headers cs headers

-- The checks before the stream starts: the codings, or an error.
unfoldable pub stream_codings :
    (limit : ℕ) → Option ℕ → List (BodyResult Text) → BodyResult (List Text)
unfolding trim to_ascii_lowercase
stream_codings limit known_length headers =
    fail_if (is_longer limit known_length) (too_large limit) >> push_headers [] headers

-- The state of the raw stream.
pub record RawState : Type 0 where
  pub arrivals : List Arrival
  pub pending : Option Bytes
  pub count : ℕ
  pub overflow : Bool

abbrev pub raw_start : List Arrival → RawState
raw_start arrivals = record { arrivals = arrivals; pending = none; count = 0; overflow = false }

module _ (limit : ℕ) where
  -- What is delivered of a chunk, and the state after it. `split_to` leaves the rest pending.
  abbrev pub accepted : (count : ℕ) → Bytes → ℕ
  accepted count c = min (min (length c) (limit - count)) max_piece

  abbrev pub deliver : List Arrival → (count : ℕ) → Bytes → Item RawState
  deliver arrivals count c =
      let n = accepted count c in
      let rest = drop n c in
      let full = count + n == limit in
      item (take n c) (record {
        arrivals = arrivals;
        pending = if is_empty rest || full then none else some rest;
        count = count + n;
        overflow = not (is_empty rest) && full;
      })

  abbrev pub with_chunk : List Arrival → (count : ℕ) → Bytes → Item RawState
  with_chunk arrivals count c =
      if not (is_empty c) && (limit - count == 0)
      then failed (too_large limit)
      else deliver arrivals count c

  abbrev pub next_chunk : List Arrival → (count : ℕ) → Item RawState
  next_chunk [] count = finished
  next_chunk (broken e ∷ arrivals) count = failed (network e)
  next_chunk (chunk c ∷ arrivals) count = with_chunk arrivals count c

  abbrev pub with_pending : List Arrival → (count : ℕ) → Option Bytes → Item RawState
  with_pending arrivals count none = next_chunk arrivals count
  with_pending arrivals count (some c) = with_chunk arrivals count c

  unfoldable pub raw_step : RawState → Item RawState
  raw_step s =
      if s.overflow then failed (too_large limit) else with_pending s.arrivals s.count s.pending

-- The cap on what a decoder, or the whole stream, delivers.
pub record BoundedState (R : Type 0) : Type 0 where
  pub reader : R
  pub delivered : ℕ
  pub over : Bool

module _ (decoders : Decoders) (limit : ℕ) where
  open decoders use {Reader, read}

  abbrev pub after_bounded_read :
      (count : ℕ) → Result Text (Bytes × Reader) → Item (BoundedState Reader)
  after_bounded_read count (err e) = failed (decode_failed e)
  after_bounded_read count (ok (bytes, next)) =
      let remaining = limit - count in
      let over = ltb remaining (length bytes) in
      let kept = take (min (length bytes) remaining) bytes in
      if is_empty bytes
      then finished
      else if over && (remaining == 0)
      then failed (too_large limit)
      else item kept (record { reader = next; delivered = count + length kept; over = over })

  unfoldable pub bounded_step : BoundedState Reader → Item (BoundedState Reader)
  bounded_step s =
      if s.over
      then failed (too_large limit)
      else after_bounded_read s.delivered (read s.reader (min max_piece (limit - s.delivered + 1)))
