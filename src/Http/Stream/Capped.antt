-- ===== src/Http/Stream/Capped.antt =====
-- The caps on decoded stages of src/http/stream.rs: `bounded`.
use panshou.Prelude.{
  take_all, ℕ, zero, suc, ◌+◌, ◌-◌, ◌≤◌, ◌<◌, ◌≡◌, refl, sym, ◌∙◌, ap, subst, min, true, false,
  Option, none, some, List, [], ◌∷◌, ◌++◌, arith, ltb, ltb→lt, ◌==◌, is_empty, length,
  length-append, append_assoc, take, drop, All, Bool-cases, inl, inr,
}
use panshou.Prelude.Results.{Result, ok, err}
use panshou.Text.{Text}
use panshou.Core.Merge.{concat}
use panshou.Http.Body.{
  Bytes, too_large, invalid_encoding, unsupported_encoding, too_many_layers, network, decode_failed,
  Decoders,
}
use panshou.Http.Body.Laws.{IsReader}
use panshou.Http.Stream.{
  max_piece, End, ended, broke, before_rest, after_step, unfold_all, BoundedState,
  after_bounded_read, bounded_step,
}
use panshou.Http.Stream.Raw.{IsShort, take-split, length-take-le, pos_length}

-- How a capped stream that may deliver so many of these bytes ends: with all of them; with the error
-- of too many, after the first ones; or with the decoder's failure, after some first ones.
abbrev pub EndsBy : (limit room : ℕ) → Bytes → Option Text → Bytes → End → Type 0
EndsBy limit room bytes failure out ended = (out ≡ bytes) × (length bytes ≤ room) × (failure ≡ none)
EndsBy limit room bytes failure out (broke (too_large l)) =
    (l ≡ limit) × (out ≡ take room bytes) × (room < length bytes)
EndsBy limit room bytes failure out (broke (decode_failed e)) =
    (failure ≡ some e) × (length out ≤ room) × ((left : Bytes) × (bytes ≡ out ++ left))
EndsBy limit room bytes failure out (broke (network e)) = ⊥
EndsBy limit room bytes failure out (broke invalid_encoding) = ⊥
EndsBy limit room bytes failure out (broke unsupported_encoding) = ⊥
EndsBy limit room bytes failure out (broke too_many_layers) = ⊥

abbrev pub Caps : (limit room : ℕ) → Bytes → Option Text → Option (List Bytes × End) → Type 0
Caps limit room bytes failure none = ⊥
Caps limit room bytes failure (some (pieces, end)) =
    All IsShort pieces × EndsBy limit room bytes failure (concat pieces) end

EndsBy-after :
    (limit room : ℕ) (piece bytes : Bytes) (failure : Option Text) (out : Bytes) (end : End)
    → length piece ≤ room
    → EndsBy limit (room - length piece) bytes failure out end
    → EndsBy limit room (piece ++ bytes) failure (piece ++ out) end
EndsBy-after limit room piece bytes failure out ended h k =
    (ap (λ r. piece ++ r) k.0, omega (arith, k.1, length-append piece bytes), k.2)
EndsBy-after limit room piece bytes failure out (broke (too_large l)) h k = (
  k.0,
  ap (λ r. piece ++ r) k.1 ∙ sym (take_after room piece bytes h),
  omega (arith, k.2, length-append piece bytes),
)
  where
    take_after :
        (room : ℕ) (piece bytes : Bytes)
        → length piece ≤ room
        → take room (piece ++ bytes) ≡ piece ++ take (room - length piece) bytes
    take_after room [] bytes h = ap (λ m. take m bytes) (omega arith)
    take_after zero (b ∷ piece) bytes h = absurd (omega arith)
    take_after (suc room) (b ∷ piece) bytes h =
        ap (λ r. b ∷ r)
          (take_after room piece bytes (omega arith)
            ∙ ap (λ m. piece ++ take m bytes) (omega arith))
EndsBy-after limit room piece bytes failure out (broke (decode_failed e)) h k =
    let (left, whole) = k.2 in
    (
      k.0,
      omega (arith, k.1, length-append piece out),
      (left, ap (λ r. piece ++ r) whole ∙ sym (append_assoc piece out left)),
    )
EndsBy-after limit room piece bytes failure out (broke (network e)) h k = k
EndsBy-after limit room piece bytes failure out (broke invalid_encoding) h k = k
EndsBy-after limit room piece bytes failure out (broke unsupported_encoding) h k = k
EndsBy-after limit room piece bytes failure out (broke too_many_layers) h k = k

before_rest-Caps :
    (limit room : ℕ) (piece bytes : Bytes) (failure : Option Text) (r : Option (List Bytes × End))
    → length piece ≤ room
    → IsShort piece
    → Caps limit (room - length piece) bytes failure r
    → Caps limit room (piece ++ bytes) failure (before_rest piece r)
before_rest-Caps limit room piece bytes failure none h short k = k
before_rest-Caps limit room piece bytes failure (some (pieces, end)) h short k =
    ((short, k.0), EndsBy-after limit room piece bytes failure (concat pieces) end h k.1)

module _ (d : Decoders) (laws : IsReader d) (limit : ℕ) where
  abbrev LoopCaps : ℕ → (BoundedState d.Reader → Option (List Bytes × End)) → Type 0
  LoopCaps count loop =
      ((s : BoundedState d.Reader)
        → s.delivered ≤ limit
        → count < s.delivered
        → s.over ≡ false
        → Caps limit (limit - s.delivered) (laws.rest s.reader) (laws.failure s.reader) (loop s))
      × ((s : BoundedState d.Reader) → s.over ≡ true → loop s ≡ some ([], broke (too_large limit)))

  after_read-Caps :
      (count : ℕ) (r : d.Reader) (result : Result Text (Bytes × d.Reader))
      (loop : BoundedState d.Reader → Option (List Bytes × End))
      → count ≤ limit
      → d.read r (min max_piece (limit - count + 1)) ≡ result
      → LoopCaps count loop
      → Caps limit
          (limit - count)
          (laws.rest r)
          (laws.failure r)
          (after_step (bounded_step d limit) loop (after_bounded_read d limit count result))
  after_read-Caps count r (err e) loop h k go = (
    tt,
    (
      laws.fails r (min max_piece (limit - count + 1)) e (ground arith) k,
      omega arith,
      (laws.rest r, refl),
    ),
  )
  after_read-Caps count r (ok (bytes, next)) loop h k (go, stop) =
      let contract = laws.reads r (min max_piece (limit - count + 1)) bytes next (ground arith) k in
      let all_bytes = length-append bytes (laws.rest next) in
      let whole = ap length contract.0 in
      elim (Bool-cases (is_empty bytes)) [
        | inl e ↦
            let (nothing, sound) = contract.3 e in rw (e, nothing) (tt, (refl, omega arith, sound))
        | inr e ↦
            let some_bytes = pos_length bytes e in
            elim (Bool-cases (ltb (limit - count) (length bytes))) [
              | inr few ↦
                  let fits : length bytes ≤ limit - count = ground arith in
                  let least : min (length bytes) (limit - count) ≡ length bytes = omega arith in
                  let kept = take_all (length bytes) bytes (omega arith) in
                  let state : BoundedState d.Reader = record {
                    reader = next;
                    delivered = count + length bytes;
                    over = false;
                  } in
                  let room : limit - (count + length bytes) ≡ limit - count - length bytes =
                    omega arith in
                  rw (e, few, least, kept)
                    (subst
                      (λ c.
                        Caps limit (limit - count) c (laws.failure r)
                          (before_rest bytes (loop state)))
                      (sym contract.0)
                      (before_rest-Caps limit (limit - count) bytes (laws.rest next)
                        (laws.failure r) (loop state) fits (omega (arith, contract.2))
                        (subst
                          (λ f.
                            Caps limit (limit - count - length bytes) (laws.rest next) f
                              (loop state))
                          (sym contract.1)
                          (subst
                            (λ m. Caps limit m (laws.rest next) (laws.failure next) (loop state))
                            room (go state (omega arith) (omega arith) refl)))))
              | inl many ↦ elim (Bool-cases (limit - count == 0)) [
                | inl no_room ↦
                    let no_left : 0 ≡ limit - count = ground arith in
                    rw (e, many, no_room)
                      (
                        tt,
                        (
                          refl,
                          ap (λ m. take m (laws.rest r)) no_left,
                          omega (arith, whole, all_bytes, some_bytes, no_left),
                        ),
                      )
                | inr some_room ↦
                    let over = ltb→lt (limit - count) (length bytes) many in
                    let least : min (length bytes) (limit - count) ≡ limit - count = omega arith in
                    let none_left : limit - count - (limit - count) ≡ 0 = omega arith in
                    let first =
                      take-split (limit - count) (limit - count) bytes (laws.rest next)
                        (omega arith) (omega arith) in
                    let kept = take (limit - count) bytes in
                    let state : BoundedState d.Reader = record {
                      reader = next;
                      delivered = count + length kept;
                      over = true;
                    } in
                    rw (e, many, some_room, least)
                      (subst
                        (λ o.
                          Caps limit (limit - count) (laws.rest r) (laws.failure r)
                            (before_rest kept o))
                        (sym (stop state refl))
                        (
                          (omega (arith, contract.2, length-take-le (limit - count) bytes), tt),
                          (
                            refl,
                            sym (
                                ap (take (limit - count)) contract.0
                                ∙ first
                                ∙ ap
                                    (λ m.
                                      kept ++ take m (drop (limit - count) bytes ++ laws.rest next))
                                    none_left),
                            omega (arith, whole, all_bytes, over),
                          ),
                        ))
              ]
            ]
      ]

  stops :
      (fuel : ℕ) (s : BoundedState d.Reader)
      → s.over ≡ true
      → unfold_all (bounded_step d limit) (suc fuel) s ≡ some ([], broke (too_large limit))
  unfolding unfold_all bounded_step
  stops fuel s h = rw h refl

  bounded_from-Caps :
      (fuel : ℕ) (s : BoundedState d.Reader)
      → s.delivered ≤ limit
      → s.over ≡ false
      → limit - s.delivered + 1 < fuel
      → Caps limit
          (limit - s.delivered)
          (laws.rest s.reader)
          (laws.failure s.reader)
          (unfold_all (bounded_step d limit) fuel s)
  unfolding unfold_all bounded_step
  bounded_from-Caps zero s h o m = absurd (omega (arith, m))
  bounded_from-Caps (suc zero) s h o m = absurd (omega (arith, m))
  bounded_from-Caps (suc (suc fuel)) s h o m = rw o (
      after_read-Caps s.delivered s.reader
        (d.read s.reader (min max_piece (limit - s.delivered + 1)))
        (unfold_all (bounded_step d limit) (suc fuel)) h refl
        ((λ t k more p. bounded_from-Caps (suc fuel) t k p (omega (arith, more, m))), stops fuel))

  -- `limit + 2` steps are enough to run a capped stream to its end: its pieces are no longer than 32 KiB; it ends
  -- normally with all that the reader delivers, which is then within the limit, and only if the reader
  -- does not fail; with the error of a body that is too large only after the first `limit` bytes of one
  -- that is; and otherwise with the reader's own failure, after no more than `limit` bytes, which are the
  -- first of those that it delivers.
  pub bounded-Caps :
      (r : d.Reader)
      → Caps limit limit (laws.rest r) (laws.failure r) (
          unfold_all
            (bounded_step d limit)
            (limit + 2)
            (record { reader = r; delivered = 0; over = false }))
  bounded-Caps r =
      let start : BoundedState d.Reader = record { reader = r; delivered = 0; over = false } in
      let whole : limit - 0 ≡ limit = omega arith in
      subst
        (λ room.
          Caps limit room (laws.rest r) (laws.failure r)
            (unfold_all (bounded_step d limit) (limit + 2) start))
        whole (bounded_from-Caps (limit + 2) start (omega arith) refl (omega arith))
