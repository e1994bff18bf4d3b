-- ===== src/State/Sealing.antt =====
-- The secrets of src/state/store.rs: a value that passes, and the envelope of one that is sealed.
use panshou.Prelude.{
  ◌≡◌, refl, subst, Bool, true, false, not, ◌&&◌, ◌⊎◌, inl, inr, Option, none, some, arith,
  if◌then◌else◌, length,
}
use panshou.Prelude.Results.{ok, fail_if-eq_ok, >>=-eq_ok}
use panshou.Text.{Text}
use panshou.State.{
  Value, StateResult, Cipher, Codec, is_secret_field, is_password_field, of_field, empty_secret,
  envelope, encoded, encrypt, decrypt, seal_value, guarded, needs_key, password_requires_key,
  reveal_secrets,
}

-- Decoding, unsealing and parsing undo encoding, sealing and printing; a nonce has 12 bytes.
pub record IsCodec (codec : Codec) : Type 0 where
  pub decodes : (t : Text) → codec.decode (codec.encode t) ≡ some t
  pub parses : (v : Value) → codec.from_slice (codec.to_vec v) ≡ some v

pub record IsCipher (c : Cipher) : Type 0 where
  pub size : (plaintext aad : Text) → length (c.nonce_for plaintext aad) ≡ 12
  pub unseals :
      (nonce plaintext aad ciphertext : Text)
      → c.seal nonce plaintext aad ≡ some ciphertext
      → c.unseal nonce ciphertext aad ≡ some plaintext

abbrev pub AreCiphers : Option Cipher → Type 0
AreCiphers none = Unit
AreCiphers (some c) = IsCipher c

-- A secret that is not empty, in a field of the kind that the store protects.
abbrev pub is_exposed : Option Cipher → Option Text → Value → Bool
is_exposed none name v = of_field is_password_field name && not (empty_secret v)
is_exposed (some c) name v = of_field is_secret_field name && not (empty_secret v)

module _ (codec : Codec) where
  -- A value that passed is sealed, or is what the recursion gave.
  choose :
      (b c : Bool) {x y z : StateResult Value}
      → (if b && c then x else y) ≡ z
      → ((y ≡ z) × ((b && c) ≡ false)) ⊎ ((b ≡ true) × (x ≡ z))
  choose true true h = inr (refl, h)
  choose true false h = inl (h, refl)
  choose false c h = inl (h, refl)

  pub guarded-eq_ok :
      (cipher : Option Cipher) (name : Option Text) (v : Value) (inside : StateResult Value)
      {w : Value}
      → guarded codec cipher name v inside ≡ ok w
      → ((inside ≡ ok w) × (is_exposed cipher name v ≡ false))
        ⊎ ((c : Cipher) × (n : Text) × (cipher ≡ some c)
            × (name ≡ some n)
            × (is_secret_field n ≡ true)
            × (seal_value codec c n v ≡ ok w))
  guarded-eq_ok none name v inside h =
      let (bare, rest) = fail_if-eq_ok (needs_key codec none name v) password_requires_key _ h in
      inl (rest, ground arith)
  guarded-eq_ok (some c) none v inside h = inl (h, refl)
  guarded-eq_ok (some c) (some n) v inside h =
      let rest =
        (fail_if-eq_ok (needs_key codec (some c) (some n) v) password_requires_key _ h).1 in
      elim (choose (is_secret_field n) (not (empty_secret v)) rest) [
        | inl k ↦ inl k
        | inr (secret, k) ↦ inr (c, n, refl, refl, secret, k)
      ]

  module _ (laws : IsCodec codec) where
    decrypt-encrypt :
        (c : Cipher) (plaintext aad : Text) (r : Option Text) {sealed : Text × Text}
        → IsCipher c
        → c.seal (c.nonce_for plaintext aad) plaintext aad ≡ r
        → encoded codec (c.nonce_for plaintext aad) r ≡ ok sealed
        → decrypt codec c sealed.0 sealed.1 aad ≡ ok plaintext
    decrypt-encrypt c plaintext aad none good e h = cc
    decrypt-encrypt c plaintext aad (some t) {sealed} good e h =
        let nonce = c.nonce_for plaintext aad in
        let same : (codec.encode nonce, codec.encode t) ≡ sealed = ground arith in
        subst (λ s. decrypt codec c s.0 s.1 aad ≡ ok plaintext) same
          (rw (laws.decodes nonce) (
            rw (good.size plaintext aad)
              (rw (laws.decodes t) (rw (good.unseals nonce plaintext aad t e) refl))))

    pub reveal-seal_value :
        (c : Cipher) (n : Text) (v : Value) {w : Value}
        → IsCipher c
        → seal_value codec c n v ≡ ok w
        → reveal_secrets codec (some c) (some n) w ≡ ok v
    unfolding reveal_secrets
    reveal-seal_value c n v {w} good h =
        let (sealed, e, made) = >>=-eq_ok (encrypt codec c (codec.to_vec v) n) _ h in
        let same : envelope sealed.0 sealed.1 ≡ w = ground arith in
        subst (λ x. reveal_secrets codec (some c) (some n) x ≡ ok v) same
          (rw
            (decrypt-encrypt c (codec.to_vec v) n
              (c.seal (c.nonce_for (codec.to_vec v) n) (codec.to_vec v) n) good refl e)
            (rw (laws.parses v) refl))

pub ok_inj : {A : Type 0} {a b : A} → ◌≡◌ {A = StateResult A} (ok a) (ok b) → a ≡ b
ok_inj h = cc
