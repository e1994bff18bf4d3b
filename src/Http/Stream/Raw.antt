-- ===== src/Http/Stream/Raw.antt =====
-- The raw stream of src/http/stream.rs: what it delivers of a response, and how it ends.
use panshou.Prelude.{
  ℕ, zero, suc, ◌+◌, ◌-◌, ◌≤◌, ◌<◌, ◌≡◌, refl, sym, ◌∙◌, ap, subst, Bool, true, false, not, ◌&&◌,
  Option, none, some, List, [], ◌∷◌, ◌++◌, arith, ltb, ◌==◌, if◌then◌else◌, is_empty, length,
  length-append, take, drop, All, Bool-cases, inl, inr,
}
use panshou.Core.Merge.{concat}
use panshou.Http.Body.{Bytes, too_large, network, Arrival, chunk, broken}
use panshou.Http.Body.Limits.{content}
use panshou.Http.Stream.{
  max_piece, End, ended, broke, before_rest, after_step, unfold_all, RawState, raw_start, accepted,
  deliver, with_chunk, next_chunk, with_pending, raw_step,
}

-- How the connection ends.
abbrev pub end_of : List Arrival → End
end_of [] = ended
end_of (broken e ∷ arrivals) = broke (network e)
end_of (chunk c ∷ arrivals) = end_of arrivals

abbrev or_nothing : Option Bytes → Bytes
or_nothing none = []
or_nothing (some c) = c

-- What is left to deliver.
abbrev left : RawState → Bytes
left s = or_nothing s.pending ++ content s.arrivals

abbrev held : Option Bytes → ℕ
held none = 0
held (some c) = 1

abbrev measure : RawState → ℕ
measure s = length (left s) + length s.arrivals + held s.pending

abbrev pub IsShort : Bytes → Type 0
IsShort piece = length piece ≤ max_piece

-- A stream that may still deliver so many bytes of these, and then ends so.
abbrev pub Delivers : (limit room : ℕ) → Bytes → End → Option (List Bytes × End) → Type 0
Delivers limit room bytes end none = ⊥
Delivers limit room bytes end (some (pieces, e)) =
    (concat pieces ≡ take room bytes)
    × All IsShort pieces
    × (e ≡ (if ltb room (length bytes) then broke (too_large limit) else end))

pub take-split :
    (n room : ℕ) (c more : Bytes)
    → n ≤ room
    → n ≤ length c
    → take room (c ++ more) ≡ take n c ++ take (room - n) (drop n c ++ more)
take-split zero room c more h k = ap (λ m. take m (c ++ more)) (omega arith)
take-split (suc n) zero c more h k = absurd (omega arith)
take-split (suc n) (suc room) [] more h k = absurd (omega arith)
take-split (suc n) (suc room) (b ∷ c) more h k =
    ap (λ r. b ∷ r)
      (take-split n room c more (omega arith) (omega arith)
        ∙ ap (λ m. take n c ++ take m (drop n c ++ more)) (omega arith))

pub length-drop : (n : ℕ) (c : Bytes) → length (drop n c) ≡ length c - n
length-drop zero c = omega arith
length-drop (suc n) [] = omega arith
length-drop (suc n) (b ∷ c) = omega (arith, length-drop n c)

pub length-take-le : (n : ℕ) (c : Bytes) → length (take n c) ≤ n
length-take-le zero c = omega arith
length-take-le (suc n) [] = omega arith
length-take-le (suc n) (b ∷ c) = omega (arith, length-take-le n c)

-- One piece before the others.
pub before_rest-Delivers :
    (limit room room' : ℕ) (bytes bytes' piece : Bytes) (end : End) (r : Option (List Bytes × End))
    → take room bytes ≡ piece ++ take room' bytes'
    → ltb room (length bytes) ≡ ltb room' (length bytes')
    → IsShort piece
    → Delivers limit room' bytes' end r
    → Delivers limit room bytes end (before_rest piece r)
before_rest-Delivers limit room room' bytes bytes' piece end none t l short h = h
before_rest-Delivers limit room room' bytes bytes' piece end (some (pieces, e)) t l short
      (c, s, k) =
    (
      ap (λ r. piece ++ r) c ∙ sym t,
      (short, s),
      k ∙ ap (λ b. if b then broke (too_large limit) else end) (sym l),
    )

empty_nil : (bs : Bytes) → is_empty bs ≡ true → bs ≡ []
empty_nil [] h = refl
empty_nil (b ∷ bs) h = cc

pub pos_length : (bs : Bytes) → is_empty bs ≡ false → 0 < length bs
pos_length [] h = cc
pos_length (b ∷ bs) h = omega arith

nonempty_of_pos : (bs : Bytes) → 0 < length bs → is_empty bs ≡ false
nonempty_of_pos [] h = absurd (omega arith)
nonempty_of_pos (b ∷ bs) h = refl

abbrev state_after : List Arrival → ℕ → Option Bytes → Bool → RawState
state_after arrivals count pending overflow = record {
  arrivals = arrivals;
  pending = pending;
  count = count;
  overflow = overflow;
}

pub take_nil : (m : ℕ) → [] ≡ take {A = ℕ} m []
take_nil zero = refl
take_nil (suc m) = refl

module _ (limit : ℕ) where
  -- What the loop is known to do after a step.
  abbrev LoopOk : ℕ → (RawState → Option (List Bytes × End)) → Type 0
  LoopOk m loop =
      ((s : RawState)
        → s.count ≤ limit
        → s.overflow ≡ false
        → measure s < m
        → Delivers limit (limit - s.count) (left s) (end_of s.arrivals) (loop s))
      × ((s : RawState) → s.overflow ≡ true → loop s ≡ some ([], broke (too_large limit)))

  deliver-Delivers :
      (arrivals : List Arrival) (count : ℕ) (c : Bytes)
      (loop : RawState → Option (List Bytes × End))
      → count ≤ limit
      → (is_empty c ≡ false → 0 < limit - count)
      → LoopOk (length (c ++ content arrivals) + length arrivals + 1) loop
      → Delivers limit
          (limit - count)
          (c ++ content arrivals)
          (end_of arrivals)
          (after_step (raw_step limit) loop (deliver limit arrivals count c))
  deliver-Delivers arrivals count c loop h room (go, stop) =
      let n = accepted limit count c in
      let rest = drop n c in
      let in_room : n ≤ limit - count = omega arith in
      let in_chunk : n ≤ length c = omega arith in
      let short : IsShort (take n c) = omega (arith, length-take-le n c) in
      let split = take-split n (limit - count) c (content arrivals) in_room in_chunk in
      let total = length-append c (content arrivals) in
      let dropped = length-drop n c in
      elim (Bool-cases (is_empty rest)) [
        | inl e ↦
            let none_left = empty_nil rest e in
            let sizes = ap length none_left in
            rw e (
              before_rest-Delivers limit (limit - count) (limit - (count + n))
                (c ++ content arrivals) (content arrivals) (take n c) (end_of arrivals)
                (loop (state_after arrivals (count + n) none false))
                (split
                  ∙ ap (λ r. take n c ++ take (limit - count - n) (r ++ content arrivals)) none_left
                  ∙ ap (λ m. take n c ++ take m (content arrivals)) (omega arith))
                (ground (arith, total, dropped, sizes)) short
                (go (state_after arrivals (count + n) none false) (omega arith) refl
                  (omega (arith, total))))
        | inr e ↦
            let more_left = pos_length rest e in
            let some_room = room (nonempty_of_pos c (omega (arith, more_left, dropped))) in
            elim (Bool-cases (count + n == limit)) [
              | inl full ↦
                  rw (e, full)
                    (subst
                      (λ o.
                        Delivers limit (limit - count) (c ++ content arrivals) (end_of arrivals)
                          (before_rest (take n c) o))
                      (sym (stop (state_after arrivals (count + n) none true) refl))
                      (
                        (let gone : limit - count - n ≡ 0 = ground arith in
                            sym (
                              split
                              ∙ ap (λ m. take n c ++ take m (rest ++ content arrivals)) gone)),
                        (short, tt),
                        ground (arith, total, dropped, more_left),
                      ))
              | inr more ↦
                  rw (e, more)
                    (before_rest-Delivers limit (limit - count) (limit - (count + n))
                      (c ++ content arrivals) (rest ++ content arrivals) (take n c)
                      (end_of arrivals) (loop (state_after arrivals (count + n) (some rest) false))
                      (split
                        ∙ ap (λ m. take n c ++ take m (rest ++ content arrivals)) (omega arith))
                      (ground (arith, total, dropped, length-append rest (content arrivals))) short
                      (go (state_after arrivals (count + n) (some rest) false) (omega arith) refl (
                        omega (
                          arith,
                          total,
                          dropped,
                          more_left,
                          some_room,
                          length-append rest (content arrivals),
                        ))))
            ]
      ]

  with_chunk-Delivers :
      (arrivals : List Arrival) (count : ℕ) (c : Bytes)
      (loop : RawState → Option (List Bytes × End))
      → count ≤ limit
      → LoopOk (length (c ++ content arrivals) + length arrivals + 1) loop
      → Delivers limit
          (limit - count)
          (c ++ content arrivals)
          (end_of arrivals)
          (after_step (raw_step limit) loop (with_chunk limit arrivals count c))
  with_chunk-Delivers arrivals count c loop h ok_loop =
      elim (Bool-cases (not (is_empty c) && (limit - count == 0))) [
        | inl e ↦
            let no_room : 0 ≡ limit - count = ground arith in
            rw e (
              ap (λ m. take m (c ++ content arrivals)) no_room,
              tt,
              ground (arith, pos_length c, length-append c (content arrivals)),
            )
        | inr e ↦ rw e (deliver-Delivers arrivals count c loop h (λ k. ground arith) ok_loop)
      ]

  next_chunk-Delivers :
      (arrivals : List Arrival) (count : ℕ) (loop : RawState → Option (List Bytes × End))
      → count ≤ limit
      → LoopOk (length (content arrivals) + length arrivals) loop
      → Delivers limit
          (limit - count)
          (content arrivals)
          (end_of arrivals)
          (after_step (raw_step limit) loop (next_chunk limit arrivals count))
  next_chunk-Delivers [] count loop h ok_loop = (take_nil (limit - count), tt, ground arith)
  next_chunk-Delivers (broken e ∷ arrivals) count loop h ok_loop =
      (take_nil (limit - count), tt, ground arith)
  next_chunk-Delivers (chunk c ∷ arrivals) count loop h (go, stop) =
      with_chunk-Delivers arrivals count c loop h ((λ s k o m. go s k o (omega (arith, m))), stop)

  unfold_all-stops :
      (fuel : ℕ) (s : RawState)
      → s.overflow ≡ true
      → unfold_all (raw_step limit) (suc fuel) s ≡ some ([], broke (too_large limit))
  unfolding unfold_all raw_step
  unfold_all-stops fuel s h = rw h refl

  with_pending-Delivers :
      (arrivals : List Arrival) (count : ℕ) (pending : Option Bytes)
      (loop : RawState → Option (List Bytes × End))
      → count ≤ limit
      → LoopOk (measure (state_after arrivals count pending false)) loop
      → Delivers limit
          (limit - count)
          (or_nothing pending ++ content arrivals)
          (end_of arrivals)
          (after_step (raw_step limit) loop (with_pending limit arrivals count pending))
  with_pending-Delivers arrivals count none loop h (go, stop) =
      next_chunk-Delivers arrivals count loop h ((λ s k o m. go s k o (omega (arith, m))), stop)
  with_pending-Delivers arrivals count (some c) loop h ok_loop =
      with_chunk-Delivers arrivals count c loop h ok_loop

  raw-Delivers :
      (fuel : ℕ) (s : RawState)
      → s.count ≤ limit
      → s.overflow ≡ false
      → measure s + 1 < fuel
      → Delivers limit
          (limit - s.count)
          (left s)
          (end_of s.arrivals)
          (unfold_all (raw_step limit) fuel s)
  unfolding unfold_all raw_step
  raw-Delivers zero s h o m = absurd (omega (arith, m))
  raw-Delivers (suc zero) s h o m = absurd (omega (arith, m))
  raw-Delivers (suc (suc fuel)) s h o m = rw o (
      with_pending-Delivers s.arrivals s.count s.pending (unfold_all (raw_step limit) (suc fuel)) h
        (
          (λ t k p less. raw-Delivers (suc fuel) t k p (omega (arith, less, m))),
          unfold_all-stops fuel,
        ))

  -- A step for each byte and each arrival, and two more, are enough to run the raw stream of a response to its
  -- end: its pieces are no longer than 32 KiB and make up the first `limit` bytes of what arrives; and
  -- it ends as the connection does, if no more arrives, or else with the error of a body that is too large.
  pub raw_stream-Delivers :
      (arrivals : List Arrival)
      → Delivers limit limit (content arrivals) (end_of arrivals) (
          unfold_all
            (raw_step limit)
            (length (content arrivals) + length arrivals + 2)
            (raw_start arrivals))
  raw_stream-Delivers arrivals =
      let fuel = length (content arrivals) + length arrivals + 2 in
      let whole : limit - 0 ≡ limit = omega arith in
      subst
        (λ room.
          Delivers limit room (content arrivals) (end_of arrivals)
            (unfold_all (raw_step limit) fuel (raw_start arrivals)))
        whole (raw-Delivers fuel (raw_start arrivals) (omega arith) refl (omega arith))
