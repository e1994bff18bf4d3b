-- ===== src/Http/Body/Laws.antt =====
-- The limits on bodies of src/http/body.rs.
use panshou.Prelude.{
  ℕ, zero, suc, ◌+◌, ◌-◌, ◌≤◌, ◌<◌, ◌≡◌, refl, sym, ◌∙◌, ap, subst, min, true, false, Option, none,
  some, [], ◌∷◌, ◌++◌, append-nil, append_assoc, arith, ltb, ltb→lt, is_empty, length,
  length-append, Bool-cases, inl, inr,
}
use panshou.Prelude.Results.{Result, ok, err}
use panshou.Text.{Text}
use panshou.Http.Body.{
  Bytes, too_large, invalid_encoding, unsupported_encoding, too_many_layers, network, decode_failed,
  BodyResult, Decoders, after_read, read_loop, read_limited_cooperative,
}

-- The contract of `Read` on a decoder: what is left to read is the piece and what is left after it,
-- a piece is no longer than asked for, and an empty one means the end. A decoder may fail before it has
-- delivered all: then no read comes to the end, and only then a read fails.
pub record IsReader (d : Decoders) : Type 0 where
  pub rest : d.Reader → Bytes
  pub failure : d.Reader → Option Text
  pub reads :
      (r : d.Reader) (n : ℕ) (piece : Bytes) (next : d.Reader)
      → 0 < n
      → d.read r n ≡ ok (piece, next)
      → (rest r ≡ piece ++ rest next)
        × (failure r ≡ failure next)
        × (length piece ≤ n)
        × (is_empty piece ≡ true → (rest r ≡ []) × (failure r ≡ none))
  pub fails : (r : d.Reader) (n : ℕ) (e : Text) → 0 < n → d.read r n ≡ err e → failure r ≡ some e

-- What may come of reading: everything, within the limit; too much; or the decoder's failure.
abbrev pub ReadVerdict : (limit : ℕ) → Bytes → Option Text → BodyResult Bytes → Type 0
ReadVerdict limit content failure (ok bytes) =
    (bytes ≡ content) × (length bytes ≤ limit) × (failure ≡ none)
ReadVerdict limit content failure (err (too_large l)) = (l ≡ limit) × (limit < length content)
ReadVerdict limit content failure (err (decode_failed e)) = failure ≡ some e
ReadVerdict limit content failure (err (network e)) = ⊥
ReadVerdict limit content failure (err invalid_encoding) = ⊥
ReadVerdict limit content failure (err unsupported_encoding) = ⊥
ReadVerdict limit content failure (err too_many_layers) = ⊥

empty_nil : (bs : Bytes) → is_empty bs ≡ true → bs ≡ []
empty_nil [] h = refl
empty_nil (b ∷ bs) h = absurd (ground arith)

nonempty_length : (bs : Bytes) → is_empty bs ≡ false → 0 < length bs
nonempty_length [] h = absurd (ground arith)
nonempty_length (b ∷ bs) h = omega arith

-- The loop from some bytes and a reader on comes to what it should.
abbrev pub Returns : (limit : ℕ) → Bytes → Option Text → Option (BodyResult Bytes) → Type 0
Returns limit content failure none = ⊥
Returns limit content failure (some result) = ReadVerdict limit content failure result

module _ (d : Decoders) (laws : IsReader d) where
  after_read-Returns :
      (limit : ℕ) (bytes : Bytes) (r : d.Reader)
      (loop : Bytes → d.Reader → Option (BodyResult Bytes))
      (result : Result Text (Bytes × d.Reader))
      → length bytes ≤ limit
      → d.read r (min 8192 (limit - length bytes + 1)) ≡ result
      → ((piece : Bytes) (next : d.Reader)
          → 0 < length piece
          → length (bytes ++ piece) ≤ limit
          → Returns limit
              ((bytes ++ piece) ++ laws.rest next)
              (laws.failure next)
              (loop (bytes ++ piece) next))
      → Returns limit (bytes ++ laws.rest r) (laws.failure r) (after_read d limit bytes loop result)
  after_read-Returns limit bytes r loop (err e) h k go =
      laws.fails r (min 8192 (limit - length bytes + 1)) e (ground arith) k
  after_read-Returns limit bytes r loop (ok (piece, next)) h k go =
      let contract =
        laws.reads r (min 8192 (limit - length bytes + 1)) piece next (ground arith) k in
      elim (Bool-cases (is_empty piece)) [
        | inl e ↦
            let (nothing, sound) = contract.3 e in
            rw (e, nothing) (sym (append-nil bytes), h, sound)
        | inr e ↦ elim (Bool-cases (ltb (limit - length bytes) (length piece))) [
          | inl many ↦
              rw (e, many)
                (
                  refl,
                  (omega (
                    arith,
                    ltb→lt (limit - length bytes) (length piece) many,
                    length-append bytes (laws.rest r),
                    ap length contract.0,
                    length-append piece (laws.rest next),
                  )),
                )
          | inr few ↦
              rw (e, few)
                (subst (λ c. Returns limit c (laws.failure r) (loop (bytes ++ piece) next))
                  (content piece next contract.0)
                  (subst
                    (λ f.
                      Returns limit ((bytes ++ piece) ++ laws.rest next) f
                        (loop (bytes ++ piece) next))
                    (sym contract.1)
                    (go piece next (nonempty_length piece e)
                      (ground (arith, length-append bytes piece)))))
        ]
      ]
    where
      content :
          (piece : Bytes) (next : d.Reader)
          → laws.rest r ≡ piece ++ laws.rest next
          → (bytes ++ piece) ++ laws.rest next ≡ bytes ++ laws.rest r
      content piece next e =
          append_assoc bytes piece (laws.rest next) ∙ ap (λ t. bytes ++ t) (sym e)

  read_loop-Returns :
      (fuel limit : ℕ) (bytes : Bytes) (r : d.Reader)
      → length bytes ≤ limit
      → limit - length bytes + 1 < fuel
      → Returns limit (bytes ++ laws.rest r) (laws.failure r) (read_loop d fuel limit bytes r)
  unfolding read_loop
  read_loop-Returns zero limit bytes r h enough = absurd (omega arith)
  read_loop-Returns (suc fuel) limit bytes r h enough =
      after_read-Returns limit bytes r (read_loop d fuel limit)
        (d.read r (min 8192 (limit - length bytes + 1))) h refl
        (λ piece next some_bytes few.
          read_loop-Returns fuel limit (bytes ++ piece) next few
            (omega (arith, length-append bytes piece)))

  -- Whatever a decoder delivers, reading it within a limit ends: with all that it delivers, which is
  -- then within the limit, and only if the decoder does not fail; with the error of a body that is too
  -- large only if it is; or with the decoder's failure, only if it fails so.
  pub read_limited-Returns :
      (limit : ℕ) (r : d.Reader)
      → Returns limit (laws.rest r) (laws.failure r) (read_limited_cooperative d limit r)
  unfolding read_limited_cooperative
  read_limited-Returns limit r =
      read_loop-Returns (suc (suc limit)) limit [] r (omega arith) (omega arith)
