-- ===== src/State/RoundTrip.antt =====
-- The secrets of src/state/store.rs: what is revealed after it was protected.
use panshou.Prelude.{
  ◌≡◌, refl, sym, ◌∙◌, ap, subst, Bool, true, false, not, ◌&&◌, inl, inr, Option, some, arith,
  Bool-cases,
}
use panshou.Prelude.Results.{ok, >>=-eq_ok}
use panshou.Text.{Text, text_beq, text_beq_iff}
use panshou.State.{
  Value, null, bool, number, string, array, object, Values, nil, cons, Fields, end, field,
  StateResult, Cipher, Codec, marker, is_secret_field, get, is_true, guarded, protect_secrets,
  protect_all, protect_fields, reveal_secrets, reveal_all, reveal_fields,
}
use panshou.State.Sealing.{IsCodec, AreCiphers, guarded-eq_ok, reveal-seal_value, ok_inj}

-- No object has the marker of an envelope.
unfoldable mutual
  pub is_plain : Value → Bool
  is_plain (array vs) = are_plain vs
  is_plain (object fs) = not (is_true (get marker fs)) && plain_fields fs
  is_plain _ = true

  pub are_plain : Values → Bool
  are_plain nil = true
  are_plain (cons v vs) = is_plain v && are_plain vs

  pub plain_fields : Fields → Bool
  plain_fields end = true
  plain_fields (field n v fs) = is_plain v && plain_fields fs

and_both : (b c : Bool) → (b && c) ≡ true → (b ≡ true) × (c ≡ true)
and_both b c h = ground arith

unmarked_and : (b c : Bool) → (not b && c) ≡ true → (b ≡ false) × (c ≡ true)
unmarked_and b c h = ground arith

secret_marker : is_secret_field marker ≡ false
unfolding is_secret_field
secret_marker = refl

module _ (codec : Codec) (cipher : Option Cipher) where
  marker_inside :
      (v : Value) (inside : StateResult Value) {w : Value}
      → guarded codec cipher (some marker) v inside ≡ ok w
      → inside ≡ ok w
  marker_inside v inside {w} h = elim (guarded-eq_ok codec cipher (some marker) v inside h) [
    | inl k ↦ k.0
    | inr (c, n, key, name, secret, k) ↦
        let one : marker ≡ n = cc in
        let clash : true ≡ false = sym secret ∙ ap is_secret_field (sym one) ∙ secret_marker in cc
  ]

  -- Protecting keeps which objects have the marker.
  is_true-protect_secrets :
      (v : Value) {w : Value}
      → protect_secrets codec cipher (some marker) v ≡ ok w
      → is_true (some w) ≡ is_true (some v)
  unfolding protect_secrets
  is_true-protect_secrets null {w} h =
      let same : ok null ≡ ok w = marker_inside null (ok null) h in ground arith
  is_true-protect_secrets (bool b) {w} h =
      let same : ok (bool b) ≡ ok w = marker_inside (bool b) (ok (bool b)) h in ground arith
  is_true-protect_secrets (number t) {w} h =
      let same : ok (number t) ≡ ok w = marker_inside (number t) (ok (number t)) h in ground arith
  is_true-protect_secrets (string t) {w} h =
      let same : ok (string t) ≡ ok w = marker_inside (string t) (ok (string t)) h in ground arith
  is_true-protect_secrets (array vs) {w} h =
      let (ws, e, same) =
        >>=-eq_ok (protect_all codec cipher (some marker) vs) _ (marker_inside (array vs) _ h) in
      ground arith
  is_true-protect_secrets (object fs) {w} h =
      let (gs, e, same) =
        >>=-eq_ok (protect_fields codec cipher fs) _ (marker_inside (object fs) _ h) in
      ground arith

  marked_field :
      (n : Text) (v w : Value) (gs fs : Fields)
      → protect_secrets codec cipher (some n) v ≡ ok w
      → is_true (get marker gs) ≡ is_true (get marker fs)
      → is_true (get marker (field n w gs)) ≡ is_true (get marker (field n v fs))
  marked_field n v w gs fs e h = elim (Bool-cases (text_beq n marker)) [
    | inl k ↦ rw k (
        is_true-protect_secrets v (
          subst (λ m. protect_secrets codec cipher (some m) v ≡ ok w) ((text_beq_iff n marker).0 k)
            e))
    | inr k ↦ rw k h
  ]

  marked-protect_fields :
      (fs : Fields) {gs : Fields}
      → protect_fields codec cipher fs ≡ ok gs
      → is_true (get marker gs) ≡ is_true (get marker fs)
  unfolding protect_secrets
  marked-protect_fields end {gs} h =
      let same : end ≡ gs = ground arith in ap (λ g. is_true (get marker g)) (sym same)
  marked-protect_fields (field n v fs) {gs} h =
      let (w, e, h1) = >>=-eq_ok (protect_secrets codec cipher (some n) v) _ h in
      let (rest, e1, h2) = >>=-eq_ok (protect_fields codec cipher fs) _ h1 in
      let same : field n w rest ≡ gs = ground arith in
      subst (λ g. is_true (get marker g) ≡ is_true (get marker (field n v fs))) same
        (marked_field n v w rest fs e (marked-protect_fields fs e1))

  module _ (laws : IsCodec codec) (good : AreCiphers cipher) where
    unguarded :
        (name : Option Text) (v : Value) (inside : StateResult Value) {w : Value}
        → guarded codec cipher name v inside ≡ ok w
        → (inside ≡ ok w → reveal_secrets codec cipher name w ≡ ok v)
        → reveal_secrets codec cipher name w ≡ ok v
    unguarded name v inside {w} h plain = elim (guarded-eq_ok codec cipher name v inside h) [
      | inl k ↦ plain k.0
      | inr (c, n, key, same, secret, k) ↦
          subst (λ x. reveal_secrets codec x name w ≡ ok v) (sym key)
            (subst (λ x. reveal_secrets codec (some c) x w ≡ ok v) (sym same)
              (reveal-seal_value codec laws c n v (subst AreCiphers key good) k))
    ]

    mutual
      unfolding protect_secrets reveal_secrets is_plain

      back :
          (name : Option Text) (v : Value) {w : Value}
          → is_plain v ≡ true
          → protect_secrets codec cipher name v ≡ ok w
          → reveal_secrets codec cipher name w ≡ ok v
      back name null p h =
          unguarded name null (ok null) h
            (λ k. subst (λ x. reveal_secrets codec cipher name x ≡ ok null) (ok_inj k) refl)
      back name (bool b) p h =
          unguarded name (bool b) (ok (bool b)) h
            (λ k. subst (λ x. reveal_secrets codec cipher name x ≡ ok (bool b)) (ok_inj k) refl)
      back name (number t) p h =
          unguarded name (number t) (ok (number t)) h
            (λ k. subst (λ x. reveal_secrets codec cipher name x ≡ ok (number t)) (ok_inj k) refl)
      back name (string t) p h =
          unguarded name (string t) (ok (string t)) h
            (λ k. subst (λ x. reveal_secrets codec cipher name x ≡ ok (string t)) (ok_inj k) refl)
      back name (array vs) {w} p h = unguarded name (array vs) _ h (λ k.
          let (ws, e, made) = >>=-eq_ok (protect_all codec cipher name vs) _ k in
          let same : array ws ≡ w = ground arith in
          subst (λ x. reveal_secrets codec cipher name x ≡ ok (array vs)) same
            (rw (back_all name vs p e) refl))
      back name (object fs) {w} p h = unguarded name (object fs) _ h (λ k.
          let (gs, e, made) = >>=-eq_ok (protect_fields codec cipher fs) _ k in
          let same : object gs ≡ w = ground arith in
          let unmarked : is_true (get marker gs) ≡ false =
            marked-protect_fields fs e
            ∙ (unmarked_and (is_true (get marker fs)) (plain_fields fs) p).0 in
          subst (λ x. reveal_secrets codec cipher name x ≡ ok (object fs)) same
            (rw unmarked (
              rw (back_fields fs (unmarked_and (is_true (get marker fs)) (plain_fields fs) p).1 e)
                refl)))

      back_all :
          (name : Option Text) (vs : Values) {ws : Values}
          → are_plain vs ≡ true
          → protect_all codec cipher name vs ≡ ok ws
          → reveal_all codec cipher name ws ≡ ok vs
      back_all name nil p h = subst (λ x. reveal_all codec cipher name x ≡ ok nil) (ok_inj h) refl
      back_all name (cons v vs) {ws} p h =
          let (w, e, h1) = >>=-eq_ok (protect_secrets codec cipher name v) _ h in
          let (rest, e1, h2) = >>=-eq_ok (protect_all codec cipher name vs) _ h1 in
          let same : cons w rest ≡ ws = ground arith in
          subst (λ x. reveal_all codec cipher name x ≡ ok (cons v vs)) same
            (rw (back name v (and_both (is_plain v) (are_plain vs) p).0 e)
              (rw (back_all name vs (and_both (is_plain v) (are_plain vs) p).1 e1) refl))

      back_fields :
          (fs : Fields) {gs : Fields}
          → plain_fields fs ≡ true
          → protect_fields codec cipher fs ≡ ok gs
          → reveal_fields codec cipher gs ≡ ok fs
      back_fields end p h = subst (λ x. reveal_fields codec cipher x ≡ ok end) (ok_inj h) refl
      back_fields (field n v fs) {gs} p h =
          let (w, e, h1) = >>=-eq_ok (protect_secrets codec cipher (some n) v) _ h in
          let (rest, e1, h2) = >>=-eq_ok (protect_fields codec cipher fs) _ h1 in
          let same : field n w rest ≡ gs = ground arith in
          subst (λ x. reveal_fields codec cipher x ≡ ok (field n v fs)) same
            (rw (back (some n) v (and_both (is_plain v) (plain_fields fs) p).0 e)
              (rw (back_fields fs (and_both (is_plain v) (plain_fields fs) p).1 e1) refl))

    -- What was protected is revealed as it was, with the key that it was protected with, or without
    -- one as without one, if no object of the state itself has the marker of an envelope.
    pub reveal_secrets-protect_secrets :
        (name : Option Text) (v : Value) {w : Value}
        → is_plain v ≡ true
        → protect_secrets codec cipher name v ≡ ok w
        → reveal_secrets codec cipher name w ≡ ok v
    reveal_secrets-protect_secrets name v p h = back name v p h
