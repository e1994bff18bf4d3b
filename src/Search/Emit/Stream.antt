-- ===== src/Search/Emit/Stream.antt =====
-- The stream of events as its receiver sees it: src/search/engine.rs promises a result for a new
-- link, an update for a changed one, and no repetition.
use panshou.Prelude.{
  ◌≡◌, refl, sym, ◌∙◌, ap, Bool, true, false, Option, none, some, List, [], ◌∷◌, ◌++◌, arith,
  if◌then◌else◌, lookup, insert, lookup-insert, is_some, Bool-cases, inl, inr,
}
use panshou.Text.{Text, text_beq_iff, text_eq}
use panshou.Env.{Env}
use panshou.Core.Model.{MergedLink}
use panshou.Core.Model.Equality.{merged_beq}
use panshou.Core.Link.Normalize.{canonical_url_key}
use panshou.Search.Emit.{
  SearchEvent, result, result_update, error, progress, summary, Emission, send, with_known_password,
  put_link, emit_known, emit_by, emit_link, emit_links,
}

abbrev pub LinkTable : Type 0
LinkTable = List (Text × MergedLink)

-- A receiver that keeps the links by id: a result must be new, an update must change something.
abbrev replay_result : LinkTable → Text → MergedLink → Option MergedLink → Option LinkTable
replay_result m id link none = some (insert id link m)
replay_result m id link (some previous) = none

abbrev replay_update : LinkTable → Text → MergedLink → Option MergedLink → Option LinkTable
replay_update m id link none = none
replay_update m id link (some previous) =
    if merged_beq previous link then none else some (insert id link m)

unfoldable pub replay_event : LinkTable → SearchEvent → Option LinkTable
unfolding lookup insert merged_beq
replay_event m (result id link) = replay_result m id link (lookup id m)
replay_event m (result_update id link) = replay_update m id link (lookup id m)
replay_event m (error e) = some m
replay_event m (progress a b c) = some m
replay_event m (summary s) = some m

unfoldable pub replay : Option LinkTable → List SearchEvent → Option LinkTable
unfolding replay_event
replay none events = none
replay (some m) [] = some m
replay (some m) (e ∷ events) = replay (replay_event m e) events

-- The receiver has accepted every event and holds the links of the sender.
abbrev pub IsStream : Emission → Type 0
IsStream e = replay (some []) e.events ≡ some e.emitted

replay-none : (events : List SearchEvent) → replay none events ≡ none
unfolding replay
replay-none [] = refl
replay-none (e ∷ events) = refl

replay-append :
    (m : Option LinkTable) (xs ys : List SearchEvent)
    → replay m (xs ++ ys) ≡ replay (replay m xs) ys
unfolding replay
replay-append none [] ys = refl
replay-append none (x ∷ xs) ys = sym (replay-none ys)
replay-append (some m) [] ys = refl
replay-append (some m) (x ∷ xs) ys = replay-append (replay_event m x) xs ys

replay_end : (m : Option LinkTable) → replay m [] ≡ m
unfolding replay
replay_end none = refl
replay_end (some m) = refl

replay_one : (m : LinkTable) (e : SearchEvent) → replay (some m) (e ∷ []) ≡ replay_event m e
unfolding replay
replay_one m e = replay_end (replay_event m e)

-- One more event after a stream that was accepted.
pub replay_next :
    (e : Emission) (event : SearchEvent)
    → IsStream e
    → replay (some []) (e.events ++ event ∷ []) ≡ replay_event e.emitted event
replay_next e event h =
    replay-append (some []) e.events (event ∷ [])
    ∙ ap (λ m. replay m (event ∷ [])) h
    ∙ replay_one e.emitted event

-- The password that is known for an id.
abbrev password_in : Option MergedLink → Bool
password_in none = false
password_in (some l) = is_some l.password

abbrev pub knows_password : Text → LinkTable → Bool
knows_password id m = password_in (lookup id m)

send-emitted :
    (b : Bool) (event : SearchEvent) (e : Emission) → (send b event e).emitted ≡ e.emitted
send-emitted true event e = refl
send-emitted false event e = refl

module _ (env : Env) where
  emit_known-IsStream :
      (id : Text) (previous link : MergedLink) (e : Emission)
      → lookup id e.emitted ≡ some previous
      → IsStream e
      → IsStream (emit_known env true id previous link e)
  unfolding replay_event
  emit_known-IsStream id previous link e found h = elim (Bool-cases (merged_beq previous link)) [
    | inl same ↦ rw same h
    | inr other ↦
        rw other (replay_next e (result_update id link) h ∙ rw (found, replay_update, other) refl)
  ]

  emit_by-IsStream :
      (id : Text) (link : MergedLink) (previous : Option MergedLink) (e : Emission)
      → lookup id e.emitted ≡ previous
      → IsStream e
      → IsStream (emit_by env true id link previous e)
  unfolding replay_event
  emit_by-IsStream id link none e found h =
      replay_next e (result id link) h ∙ rw (found, replay_result) refl
  emit_by-IsStream id link (some previous) e found h =
      emit_known-IsStream id previous (with_known_password previous link) e found h

  emit_link-IsStream :
      (e : Emission) (link : MergedLink) → IsStream e → IsStream (emit_link env true e link)
  unfolding emit_link
  emit_link-IsStream e link h =
      emit_by-IsStream (canonical_url_key env link.url) link
        (lookup (canonical_url_key env link.url) e.emitted) e refl h

  -- With a receiver, emitting links keeps the stream one that a receiver can replay: results are
  -- only for new ids, updates only for changes, and the receiver's table is that of the sender.
  pub emit_links-IsStream :
      (e : Emission) (links : List MergedLink) → IsStream e → IsStream (emit_links env true e links)
  unfolding emit_links
  emit_links-IsStream e [] h = h
  emit_links-IsStream e (link ∷ links) h =
      emit_links-IsStream (emit_link env true e link) links (emit_link-IsStream e link h)

  put_knows :
      (id k : Text) (link : MergedLink) (m : LinkTable)
      → (id ≡ k → knows_password k m ≡ true → is_some link.password ≡ true)
      → knows_password k m ≡ true
      → knows_password k (insert id link m) ≡ true
  put_knows id k link m keep h = elim (Bool-cases (text_eq.beq id k)) [
    | inl same ↦
        ap password_in (lookup-insert id k link m)
        ∙ rw (same, password_in) (keep ((text_beq_iff id k).0 same) h)
    | inr other ↦ ap password_in (lookup-insert id k link m) ∙ rw other h
  ]

  sent_knows :
      (has_sender : Bool) (event : SearchEvent) (id k : Text) (link : MergedLink) (e : Emission)
      → (id ≡ k → knows_password k e.emitted ≡ true → is_some link.password ≡ true)
      → knows_password k e.emitted ≡ true
      → knows_password k (put_link id link (send has_sender event e)).emitted ≡ true
  sent_knows has_sender event id k link e keep h =
      ap (λ m. knows_password k (insert id link m)) (send-emitted has_sender event e)
      ∙ put_knows id k link e.emitted keep h

  clash : true ≡ false → ⊥
  clash h = absurd (ground arith)

  known_with :
      (previous link : MergedLink)
      → is_some previous.password ≡ true
      → is_some (with_known_password previous link).password ≡ true
  known_with previous link h = ground arith

  emit_by_knows :
      (has_sender : Bool) (id k : Text) (link : MergedLink) (previous : Option MergedLink)
      (e : Emission)
      → lookup id e.emitted ≡ previous
      → knows_password k e.emitted ≡ true
      → knows_password k (emit_by env has_sender id link previous e).emitted ≡ true
  emit_by_knows has_sender id k link none e found h =
      sent_knows has_sender (result id link) id k link e
        (λ same known. absurd (
          clash
            (sym known ∙ ap (λ j. knows_password j e.emitted) (sym same) ∙ ap password_in found)))
        h
  emit_by_knows has_sender id k link (some previous) e found h =
      elim (Bool-cases (merged_beq previous (with_known_password previous link))) [
        | inl same ↦ rw same h
        | inr other ↦ rw other (
            sent_knows has_sender (result_update id (with_known_password previous link)) id k
              (with_known_password previous link) e
              (λ same known.
                known_with previous link
                  (sym (ap password_in found) ∙ ap (λ j. knows_password j e.emitted) same ∙ known))
              h)
      ]

  emit_link_knows :
      (has_sender : Bool) (e : Emission) (link : MergedLink) (k : Text)
      → knows_password k e.emitted ≡ true
      → knows_password k (emit_link env has_sender e link).emitted ≡ true
  unfolding emit_link
  emit_link_knows has_sender e link k h =
      emit_by_knows has_sender (canonical_url_key env link.url) k link
        (lookup (canonical_url_key env link.url) e.emitted) e refl h

  -- No loop over links loses a password that was known for an id.
  pub emit_links_keep_passwords :
      (has_sender : Bool) (e : Emission) (links : List MergedLink) (k : Text)
      → knows_password k e.emitted ≡ true
      → knows_password k (emit_links env has_sender e links).emitted ≡ true
  unfolding emit_links
  emit_links_keep_passwords has_sender e [] k h = h
  emit_links_keep_passwords has_sender e (link ∷ links) k h =
      emit_links_keep_passwords has_sender (emit_link env has_sender e link) links k
        (emit_link_knows has_sender e link k h)
