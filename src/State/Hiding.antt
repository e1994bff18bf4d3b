-- ===== src/State/Hiding.antt =====
-- The secrets of src/state/store.rs: what is never written.
use panshou.Prelude.{
  ◌≡◌, refl, sym, ap, subst, true, false, ◌⊎◌, inl, inr, Option, none, some, arith,
}
use panshou.Prelude.Results.{ok, >>=-eq_ok}
use panshou.Text.{Text, text}
use panshou.State.{
  Value, null, bool, number, string, array, object, Values, nil, cons, Fields, end, field,
  StateResult, Cipher, Codec, marker, is_secret_field, empty_secret, envelope, encoded, encrypt,
  seal_value, guarded, protect_secrets, protect_all, protect_fields,
}
use panshou.State.Sealing.{is_exposed, guarded-eq_ok, ok_inj}

module _ (codec : Codec) where
  -- An envelope around what the cipher made of some value, with the name of the field.
  abbrev pub IsSealed : Cipher → (name : Text) → Value → Type 0
  IsSealed c name w =
      (secret : Value) × (ciphertext : Text) × (c.seal (c.nonce_for (codec.to_vec secret) name)
          (codec.to_vec secret) name
        ≡ some ciphertext)
      × (w
          ≡ envelope (codec.encode (c.nonce_for (codec.to_vec secret) name))
              (codec.encode ciphertext))

  -- With a key a secret may stand in an envelope.
  abbrev pub HidesHere : Option Cipher → Option Text → Value → Type 0
  HidesHere none name v = is_exposed none name v ≡ false
  HidesHere (some c) none v = Unit
  HidesHere (some c) (some name) v = (is_exposed (some c) (some name) v ≡ false) ⊎ IsSealed c name v

  module _ (cipher : Option Cipher) where
    unfoldable mutual
      pub Hides : Option Text → Value → Type 0
      Hides name (array vs) = HidesHere cipher name (array vs) × HidesAll name vs
      Hides name (object fs) = HidesHere cipher name (object fs) × HidesFields fs
      Hides name v = HidesHere cipher name v

      pub HidesAll : Option Text → Values → Type 0
      HidesAll name nil = Unit
      HidesAll name (cons v vs) = Hides name v × HidesAll name vs

      pub HidesFields : Fields → Type 0
      HidesFields end = Unit
      HidesFields (field n v fs) = Hides (some n) v × HidesFields fs

  HidesHere-bare :
      (cipher : Option Cipher) (name : Option Text) (v w : Value)
      → empty_secret v ≡ empty_secret w
      → is_exposed cipher name v ≡ false
      → HidesHere cipher name w
  HidesHere-bare none name v w e h = ground arith
  HidesHere-bare (some c) none v w e h = tt
  HidesHere-bare (some c) (some n) v w e h = inl (ground arith)

  envelope-HidesFields :
      (c : Cipher) (nonce ciphertext : Text)
      → HidesFields (some c) (
          field marker (bool true) (
            field (text "alg") (string (text "AES-256-GCM")) (
              field
                (text "nonce")
                (string nonce)
                (field (text "ciphertext") (string ciphertext) end))))
  unfolding Hides is_secret_field
  envelope-HidesFields c nonce ciphertext = (inl refl, (inl refl, (inl refl, (inl refl, tt))))

  encrypt-IsSealed :
      (c : Cipher) (n : Text) (v : Value) (r : Option Text) {sealed : Text × Text}
      → c.seal (c.nonce_for (codec.to_vec v) n) (codec.to_vec v) n ≡ r
      → encoded codec (c.nonce_for (codec.to_vec v) n) r ≡ ok sealed
      → IsSealed c n (envelope sealed.0 sealed.1)
  encrypt-IsSealed c n v none e h = absurd (ground arith)
  encrypt-IsSealed c n v (some t) {sealed} e h =
      (v, t, e, sym (ap (λ s. envelope s.0 s.1) (ok_inj h)))

  seal_value-Hides :
      (c : Cipher) (n : Text) (v : Value) {w : Value}
      → seal_value codec c n v ≡ ok w
      → Hides (some c) (some n) w
  unfolding Hides
  seal_value-Hides c n v {w} h =
      let (sealed, e, made) = >>=-eq_ok (encrypt codec c (codec.to_vec v) n) _ h in
      subst (Hides (some c) (some n)) (ok_inj made) (
        inr (
            encrypt-IsSealed c n v (c.seal (c.nonce_for (codec.to_vec v) n) (codec.to_vec v) n) refl
              e),
        envelope-HidesFields c sealed.0 sealed.1,
      )

  module _ (cipher : Option Cipher) where
    unguarded :
        (name : Option Text) (v : Value) (inside : StateResult Value) {w : Value}
        → guarded codec cipher name v inside ≡ ok w
        → (inside ≡ ok w → is_exposed cipher name v ≡ false → Hides cipher name w)
        → Hides cipher name w
    unguarded name v inside {w} h plain = elim (guarded-eq_ok codec cipher name v inside h) [
      | inl k ↦ plain k.0 k.1
      | inr (c, n, key, same, secret, k) ↦
          subst (λ x. Hides x name w) (sym key)
            (subst (λ x. Hides (some c) x w) (sym same) (seal_value-Hides c n v k))
    ]

    mutual
      unfolding protect_secrets Hides

      hidden :
          (name : Option Text) (v : Value) {w : Value}
          → protect_secrets codec cipher name v ≡ ok w
          → Hides cipher name w
      hidden name null h = unguarded name null (ok null) h (λ k e.
          subst (Hides cipher name) (ok_inj k) (HidesHere-bare cipher name null null refl e))
      hidden name (bool b) h = unguarded name (bool b) (ok (bool b)) h (λ k e.
          subst (Hides cipher name) (ok_inj k)
            (HidesHere-bare cipher name (bool b) (bool b) refl e))
      hidden name (number t) h = unguarded name (number t) (ok (number t)) h (λ k e.
          subst (Hides cipher name) (ok_inj k)
            (HidesHere-bare cipher name (number t) (number t) refl e))
      hidden name (string t) h = unguarded name (string t) (ok (string t)) h (λ k e.
          subst (Hides cipher name) (ok_inj k)
            (HidesHere-bare cipher name (string t) (string t) refl e))
      hidden name (array vs) h = unguarded name (array vs) _ h (λ k e.
          let (ws, inner, made) = >>=-eq_ok (protect_all codec cipher name vs) _ k in
          subst (Hides cipher name) (ok_inj made)
            (HidesHere-bare cipher name (array vs) (array ws) refl e, hidden_all name vs inner))
      hidden name (object fs) h = unguarded name (object fs) _ h (λ k e.
          let (gs, inner, made) = >>=-eq_ok (protect_fields codec cipher fs) _ k in
          subst (Hides cipher name) (ok_inj made)
            (HidesHere-bare cipher name (object fs) (object gs) refl e, hidden_fields fs inner))

      hidden_all :
          (name : Option Text) (vs : Values) {ws : Values}
          → protect_all codec cipher name vs ≡ ok ws
          → HidesAll cipher name ws
      hidden_all name nil h = subst (HidesAll cipher name) (ok_inj h) tt
      hidden_all name (cons v vs) h =
          let (w, e, h1) = >>=-eq_ok (protect_secrets codec cipher name v) _ h in
          let (rest, e1, h2) = >>=-eq_ok (protect_all codec cipher name vs) _ h1 in
          subst (HidesAll cipher name) (ok_inj h2) (hidden name v e, hidden_all name vs e1)

      hidden_fields :
          (fs : Fields) {gs : Fields}
          → protect_fields codec cipher fs ≡ ok gs
          → HidesFields cipher gs
      hidden_fields end h = subst (HidesFields cipher) (ok_inj h) tt
      hidden_fields (field n v fs) h =
          let (w, e, h1) = >>=-eq_ok (protect_secrets codec cipher (some n) v) _ h in
          let (rest, e1, h2) = >>=-eq_ok (protect_fields codec cipher fs) _ h1 in
          subst (HidesFields cipher) (ok_inj h2) (hidden (some n) v e, hidden_fields fs e1)

    -- In what was protected, at any depth, a field with the name of a secret holds nothing but an
    -- empty value or an envelope around what the cipher made of a value, if there is a key; without
    -- one a field with the name of a password holds nothing but an empty value.
    pub protect_secrets-Hides :
        (name : Option Text) (v : Value) {w : Value}
        → protect_secrets codec cipher name v ≡ ok w
        → Hides cipher name w
    protect_secrets-Hides name v h = hidden name v h
