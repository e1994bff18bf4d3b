-- ===== src/Update/Archive/Reading.antt =====
-- extract_binary of src/update/mod.rs: what is read of one entry, and what the loop over the entries
-- finds.
use panshou.Prelude.{
  ℕ, ◌+◌, ◌-◌, ◌<◌, ◌≡◌, refl, sym, ◌∙◌, ap, ◌↔◌, Bool, true, false, List, [], ◌∷◌, ◌++◌, map,
  arith, ◌==◌, if◌then◌else◌, all, length, take, length-append, length-take, take_all,
}
use panshou.Prelude.Results.{Result, ok, err, ◌>>=◌, map_err, is_ok, >>=-ext}
use panshou.Text.{Text}
use panshou.Http.Body.{Bytes, Arrival, chunk, broken}
use panshou.Update.{max_archive, io, bad_archive, UpdateResult}
use panshou.Update.Archive.{before, read_to_end, Found, take_entry, each_entry}

-- All that an entry holds.
abbrev pub whole : List Arrival → Result Text Bytes
whole [] = ok []
whole (broken e ∷ arrivals) = err e
whole (chunk c ∷ arrivals) = before c (whole arrivals)

before-eq_ok :
    (c : Bytes) (r : Result Text Bytes) {b : Bytes}
    → before c r ≡ ok b
    → (rest : Bytes) × (r ≡ ok rest) × (c ++ rest ≡ b)
before-eq_ok c (ok rest) h = (rest, refl, ground arith)
before-eq_ok c (err e) h = cc

read_on :
    (limit : ℕ) (c : Bytes) (r : Result Text Bytes) {b : Bytes}
    → length b < limit
    → (if limit == 0 then ok [] else before (take limit c) r) ≡ ok b
    → before (take limit c) r ≡ ok b
read_on limit c r h e = ground arith

-- A result below the limit is everything.
pub read_to_end-whole :
    (limit : ℕ) (arrivals : List Arrival) (b : Bytes)
    → length b < limit
    → (read_to_end limit arrivals ≡ ok b) ↔ (whole arrivals ≡ ok b)
read_to_end-whole limit [] b h = (λ e. e, λ e. e)
read_to_end-whole limit (broken e ∷ arrivals) b h = ground arith
read_to_end-whole limit (chunk c ∷ arrivals) b h = (
  λ e.
      let (rest, k, same) =
        before-eq_ok (take limit c) (read_to_end (limit - length c) arrivals)
          (read_on limit c (read_to_end (limit - length c) arrivals) h e) in
      let size : length (take limit c) + length rest ≡ length b =
        sym (length-append (take limit c) rest) ∙ ap length same in
      let fits : length c < limit = omega (arith, length-take limit c) in
      let next =
        (read_to_end-whole (limit - length c) arrivals rest (omega (arith, length-take limit c))).0
          k in
      rw next (ap ok (ap (λ t. t ++ rest) (sym (take_all limit c (omega arith))) ∙ same)),
  λ e.
      let (rest, k, same) = before-eq_ok c (whole arrivals) e in
      let size : length c + length rest ≡ length b = sym (length-append c rest) ∙ ap length same in
      let next = (read_to_end-whole (limit - length c) arrivals rest (omega arith)).1 k in
      rw next (rw (take_all limit c (omega arith)) (ground (arith, size, h, same))),
)

-- What the loop asks of an entry: whether it has the name, whether it is a plain file, what it holds.
abbrev pub View : Type 0
View = Bool × Bool × List Arrival

abbrev pub take_view : Found → View → UpdateResult Found
take_view found (is_expected, is_valid, content) = take_entry is_expected is_valid content found

abbrev pub gather : Found → List (UpdateResult View) → UpdateResult Found
gather found [] = ok found
gather found (err e ∷ rs) = err e
gather found (ok v ∷ rs) = take_view found v >>= λ next. gather next rs

abbrev pub reading : {A : Type 0} → (A → UpdateResult View) → Result Text A → UpdateResult View
reading view entry = map_err bad_archive entry >>= view

bind-gather :
    (r : UpdateResult View) (found : Found) (k : Found → UpdateResult Found)
    (rs : List (UpdateResult View))
    → ((f : Found) → k f ≡ gather f rs)
    → ((r >>= take_view found) >>= k) ≡ gather found (r ∷ rs)
bind-gather (err e) found k rs h = refl
bind-gather (ok v) found k rs h = >>=-ext (take_view found v) h

pub each_entry-gather :
    {A : Type 0} (body : Found → A → UpdateResult Found) (view : A → UpdateResult View)
    (found : Found) (entries : List (Result Text A))
    → ((f : Found) (a : A) → body f a ≡ (view a >>= take_view f))
    → each_entry body found entries ≡ gather found (map (reading view) entries)
each_entry-gather body view found [] h = refl
each_entry-gather body view found (err e ∷ entries) h = refl
each_entry-gather body view found (ok a ∷ entries) h = rw (h found a) (
    bind-gather (view a) found (λ next. each_entry body next entries) (map (reading view) entries)
      (λ f. each_entry-gather body view f entries h))

-- The entries with the name.
abbrev pub with_program :
    UpdateResult View → List (Bool × List Arrival) → List (Bool × List Arrival)
with_program (err e) ps = ps
with_program (ok (is_expected, is_valid, content)) ps =
    if is_expected then (is_valid, content) ∷ ps else ps

abbrev pub programs : List (UpdateResult View) → List (Bool × List Arrival)
programs [] = []
programs (r ∷ rs) = with_program r (programs rs)

abbrev pub is_readable : List (UpdateResult View) → Bool
is_readable rs = all is_ok rs

gather_more :
    (b : Bytes) (rs : List (UpdateResult View)) (f : Found)
    → (gather (true, b) rs ≡ ok f)
      ↔ ((is_readable rs ≡ true) × (programs rs ≡ []) × ((true, b) ≡ f))
gather_more b [] f = ground arith
gather_more b (err e ∷ rs) f = ground arith
gather_more b (ok (true, v, c) ∷ rs) f = ground arith
gather_more b (ok (false, v, c) ∷ rs) f = gather_more b rs f

-- One of them, plain, and what is read of it.
abbrev pub Program : List (Bool × List Arrival) → Bytes → Type 0
Program ps b = (c : List Arrival) × (ps ≡ (true, c) ∷ []) × (read_to_end (max_archive + 1) c ≡ ok b)

gather-first :
    (c : List Arrival) (rs : List (UpdateResult View)) (b : Bytes) (r : Result Text Bytes)
    → read_to_end (max_archive + 1) c ≡ r
    → (((map_err io r >>= λ bytes. ok (true, [] ++ bytes)) >>= λ next. gather next rs)
        ≡ ok (true, b))
      ↔ ((is_readable rs ≡ true) × Program ((true, c) ∷ programs rs) b)
gather-first c rs b (err e) h = (
  λ e. cc,
  λ k.
      let (x, same, read) = k.1 in
      let one : c ≡ x = cc in
      let both : err e ≡ ok b = sym h ∙ ap (read_to_end (max_archive + 1)) one ∙ read in cc,
)
gather-first c rs b (ok bytes) h = (
  λ e.
      let (readable, none_left, same) = (gather_more bytes rs (true, b)).0 e in
      (readable, (c, ap (λ ps. (true, c) ∷ ps) none_left, h ∙ ap (λ f. ok f.1) same)),
  λ k.
      let (x, same, read) = k.1 in
      let one : c ≡ x = cc in
      let none_left : programs rs ≡ [] = cc in
      let both : ok bytes ≡ ok b = sym h ∙ ap (read_to_end (max_archive + 1)) one ∙ read in
      (gather_more bytes rs (true, b)).1 (k.0, none_left, cc),
)

pub gather-program :
    (rs : List (UpdateResult View)) (b : Bytes)
    → (gather (false, []) rs ≡ ok (true, b)) ↔ ((is_readable rs ≡ true) × Program (programs rs) b)
gather-program [] b = ground arith
gather-program (err e ∷ rs) b = ground arith
gather-program (ok (true, false, c) ∷ rs) b = (λ e. cc, λ k. ground (arith, k.1))
gather-program (ok (true, true, c) ∷ rs) b =
    gather-first c rs b (read_to_end (max_archive + 1) c) refl
gather-program (ok (false, v, c) ∷ rs) b = gather-program rs b
