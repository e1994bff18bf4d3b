-- ===== src/State.antt =====
-- src/state/store.rs and the cipher of src/state/crypto.rs: profiles of providers as JSON, with their
-- secrets encrypted. AES-GCM, base64 and `serde_json` are arguments; a nonce is what the generator
-- gave for a text and its field.
pub mod Sealing
pub mod RoundTrip
pub mod Hiding
pub mod Store
use panshou.Prelude.{
  ℕ, Bool, true, false, not, ◌&&◌, ◌||◌, Option, none, some, [], map, ◌==◌, if◌then◌else◌, is_empty,
  any, length, unwrap_or, is_none,
}
use panshou.Prelude.Results.{Result, ok, err, ◌>>=◌, ◌>>◌, fail_if, ok_or}
use panshou.Text.{Text, text, text_beq, to_ascii_lowercase, split}

mutual
  pub data Value : Type 0 where
    null : Value
    bool : Bool → Value
    number string : Text → Value
    array : Values → Value
    object : Fields → Value

  pub data Values : Type 0 where
    nil : Values
    cons : Value → Values → Values

  -- The members of an object, a name once.
  pub data Fields : Type 0 where
    end : Fields
    field : (name : Text) → Value → Fields → Fields

pub data StateError : Type 0 where
  invalid_name io json : Text → StateError
  password_requires_key missing_key : StateError
  malformed_ciphertext decryption encryption : StateError

abbrev pub StateResult : Type 0 → Type 0
StateResult A = Result StateError A

-- AES-256-GCM with a key.
pub record Cipher : Type 0 where
  pub nonce_for : (plaintext aad : Text) → Text
  pub seal : (nonce plaintext aad : Text) → Option Text
  pub unseal : (nonce ciphertext aad : Text) → Option Text

pub record Codec : Type 0 where
  -- `STANDARD_NO_PAD`.
  pub encode : Text → Text
  pub decode : Text → Option Text
  pub to_vec : Value → Text
  pub from_slice : Text → Option Value

abbrev pub marker : Text
marker = text "__pansou_secret_v1"

abbrev to_underscore : ℕ → ℕ
to_underscore c = if c == b'-' then b'_' else c

abbrev pub normal_name : Text → Text
unfolding to_ascii_lowercase
normal_name name = map to_underscore (to_ascii_lowercase name)

abbrev is_password_part : Text → Bool
is_password_part part = text_beq part (text "password")

unfoldable pub is_password_field : Text → Bool
unfolding to_ascii_lowercase
is_password_field name = any is_password_part (split b'_' (normal_name name))

abbrev is_token_part : Text → Bool
is_token_part part =
    text_beq part (text "cookie") || text_beq part (text "cookies") || text_beq part (text "token")

abbrev is_secret_name : Text → Bool
is_secret_name name =
    text_beq name (text "authorization")
    || text_beq name (text "app_auth")
    || text_beq name (text "phpsessid")

unfoldable pub is_secret_field : Text → Bool
unfolding is_password_field
is_secret_field name =
    is_password_field (normal_name name)
    || any is_token_part (split b'_' (normal_name name))
    || is_secret_name (normal_name name)

-- Null is empty too.
abbrev pub empty_secret : Value → Bool
empty_secret null = true
empty_secret (string s) = is_empty s
empty_secret _ = false

abbrev pub of_field : (Text → Bool) → Option Text → Bool
of_field p none = false
of_field p (some name) = p name

abbrev pub get : Text → Fields → Option Value
get name end = none
get name (field n v fs) = if text_beq n name then some v else get name fs

abbrev pub is_true : Option Value → Bool
is_true (some (bool b)) = b
is_true _ = false

abbrev as_str : Option Value → Option Text
as_str (some (string s)) = some s
as_str _ = none

abbrev pub envelope : (nonce ciphertext : Text) → Value
envelope nonce ciphertext = object (
    field marker (bool true) (
      field (text "alg") (string (text "AES-256-GCM"))
        (field (text "nonce") (string nonce) (field (text "ciphertext") (string ciphertext) end))))

module _ (codec : Codec) where
  abbrev pub encoded : (nonce : Text) → Option Text → StateResult (Text × Text)
  encoded nonce none = err encryption
  encoded nonce (some ciphertext) = ok (codec.encode nonce, codec.encode ciphertext)

  abbrev pub encrypt : Cipher → (plaintext aad : Text) → StateResult (Text × Text)
  encrypt cipher plaintext aad =
      let nonce = cipher.nonce_for plaintext aad in encoded nonce (cipher.seal nonce plaintext aad)

  abbrev pub decrypt : Cipher → (nonce ciphertext aad : Text) → StateResult Text
  decrypt cipher nonce ciphertext aad = do
    n ← ok_or (codec.decode nonce) malformed_ciphertext
    fail_if (not (length n == 12)) malformed_ciphertext
    c ← ok_or (codec.decode ciphertext) malformed_ciphertext
    ok_or (cipher.unseal n c aad) decryption

  abbrev pub seal_value : Cipher → (name : Text) → Value → StateResult Value
  seal_value cipher name v =
      encrypt cipher (codec.to_vec v) name >>= λ (nonce, ciphertext). ok (envelope nonce ciphertext)

  module _ (cipher : Option Cipher) where
    abbrev pub needs_key : Option Text → Value → Bool
    needs_key name v = of_field is_password_field name && is_none cipher && not (empty_secret v)

    abbrev pub seal_or : Option Cipher → Option Text → Value → StateResult Value → StateResult Value
    seal_or none name v inside = inside
    seal_or (some c) none v inside = inside
    seal_or (some c) (some name) v inside =
        if is_secret_field name && not (empty_secret v) then seal_value c name v else inside

    -- What comes before the recursion into a value.
    abbrev pub guarded : Option Text → Value → StateResult Value → StateResult Value
    guarded name v inside =
        fail_if (needs_key name v) password_requires_key >> seal_or cipher name v inside

    unfoldable mutual
      pub protect_secrets : Option Text → Value → StateResult Value
      protect_secrets name null = guarded name null (ok null)
      protect_secrets name (bool b) = guarded name (bool b) (ok (bool b))
      protect_secrets name (number n) = guarded name (number n) (ok (number n))
      protect_secrets name (string s) = guarded name (string s) (ok (string s))
      protect_secrets name (array vs) =
          guarded name (array vs) (protect_all name vs >>= λ ws. ok (array ws))
      protect_secrets name (object fs) =
          guarded name (object fs) (protect_fields fs >>= λ gs. ok (object gs))

      pub protect_all : Option Text → Values → StateResult Values
      protect_all name nil = ok nil
      protect_all name (cons v vs) = do
        w ← protect_secrets name v
        ws ← protect_all name vs
        ok (cons w ws)

      pub protect_fields : Fields → StateResult Fields
      protect_fields end = ok end
      protect_fields (field n v fs) = do
        w ← protect_secrets (some n) v
        gs ← protect_fields fs
        ok (field n w gs)

    abbrev pub open_envelope : Option Text → Fields → StateResult Value
    open_envelope name fs = do
      c ← ok_or cipher missing_key
      nonce ← ok_or (as_str (get (text "nonce") fs)) malformed_ciphertext
      ciphertext ← ok_or (as_str (get (text "ciphertext") fs)) malformed_ciphertext
      plaintext ← decrypt c nonce ciphertext (unwrap_or name [])
      ok_or (codec.from_slice plaintext) malformed_ciphertext

    unfoldable mutual
      pub reveal_secrets : Option Text → Value → StateResult Value
      reveal_secrets name null = ok null
      reveal_secrets name (bool b) = ok (bool b)
      reveal_secrets name (number n) = ok (number n)
      reveal_secrets name (string s) = ok (string s)
      reveal_secrets name (array vs) = reveal_all name vs >>= λ ws. ok (array ws)
      reveal_secrets name (object fs) =
          let inside = reveal_fields fs >>= λ gs. ok (object gs) in
          if is_true (get marker fs) then open_envelope name fs else inside

      pub reveal_all : Option Text → Values → StateResult Values
      reveal_all name nil = ok nil
      reveal_all name (cons v vs) = do
        w ← reveal_secrets name v
        ws ← reveal_all name vs
        ok (cons w ws)

      pub reveal_fields : Fields → StateResult Fields
      reveal_fields end = ok end
      reveal_fields (field n v fs) = do
        w ← reveal_secrets (some n) v
        gs ← reveal_fields fs
        ok (field n w gs)
