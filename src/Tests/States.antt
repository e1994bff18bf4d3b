-- ===== src/Tests/States.antt =====
-- JSON as numbers, read from its end with a stack, and a profile that is saved with a key.
use panshou.Prelude.{
  ℕ, ◌+◌, ◌*◌, ◌/◌, ◌%◌, ◌≡◌, refl, ◌∙◌, ap, subst, true, false, Option, none, some, List, [], ◌∷◌,
  ◌++◌, arith, ◌==◌, if◌then◌else◌,
}
use panshou.Prelude.Results.{Result, ok, err}
use panshou.Text.{Text, text, text_eq}
use panshou.State.{
  Value, null, bool, number, string, array, object, Values, nil, cons, Fields, end, field, Cipher,
  Codec, is_secret_field,
}
use panshou.State.Sealing.{IsCodec, IsCipher}
use panshou.State.RoundTrip.{is_plain}
use panshou.State.Store.{Format, Steps, save, load}
use panshou.State.Store.Laws.{IsFormat, KeepsFile, save-KeepsFile, load-save}

data Entry : Type 0 where
  a_value : Value → Entry
  some_values : Values → Entry
  some_fields : Fields → Entry
  chars : Text → Entry

abbrev Stack : Type 0
Stack = List Entry

abbrev add_char : ℕ → Stack → Stack
add_char c (chars s ∷ st) = chars (c ∷ s) ∷ st
add_char c st = st

abbrev add_number : Stack → Stack
add_number (chars s ∷ st) = a_value (number s) ∷ st
add_number st = st

abbrev add_string : Stack → Stack
add_string (chars s ∷ st) = a_value (string s) ∷ st
add_string st = st

abbrev add_array : Stack → Stack
add_array (some_values vs ∷ st) = a_value (array vs) ∷ st
add_array st = st

abbrev add_cons : Stack → Stack
add_cons (a_value v ∷ some_values vs ∷ st) = some_values (cons v vs) ∷ st
add_cons st = st

abbrev add_object : Stack → Stack
add_object (some_fields fs ∷ st) = a_value (object fs) ∷ st
add_object st = st

abbrev add_field : Stack → Stack
add_field (chars n ∷ a_value v ∷ some_fields fs ∷ st) = some_fields (field n v fs) ∷ st
add_field st = st

abbrev act : (tag content : ℕ) → Stack → Stack
act tag c st =
    if tag == 11
    then add_char c st
    else if tag == 0
    then a_value null ∷ st
    else if tag == 1
    then a_value (bool true) ∷ st
    else if tag == 2
    then a_value (bool false) ∷ st
    else if tag == 3
    then add_number st
    else if tag == 4
    then add_string st
    else if tag == 5
    then add_array st
    else if tag == 6
    then some_values nil ∷ st
    else if tag == 7
    then add_cons st
    else if tag == 8
    then add_object st
    else if tag == 9
    then some_fields end ∷ st
    else if tag == 10
    then add_field st
    else chars [] ∷ st

abbrev decode_stack : Text → Stack
decode_stack [] = []
decode_stack (c ∷ s) = act (c % 13) (c / 13) (decode_stack s)

abbrev encode_text : Text → Text → Text
encode_text [] rest = 12 ∷ rest
encode_text (c ∷ s) rest = (c * 13 + 11) ∷ encode_text s rest

unfoldable mutual
  encode : Value → Text → Text
  encode null rest = 0 ∷ rest
  encode (bool true) rest = 1 ∷ rest
  encode (bool false) rest = 2 ∷ rest
  encode (number s) rest = 3 ∷ encode_text s rest
  encode (string s) rest = 4 ∷ encode_text s rest
  encode (array vs) rest = 5 ∷ encode_all vs rest
  encode (object fs) rest = 8 ∷ encode_fields fs rest

  encode_all : Values → Text → Text
  encode_all nil rest = 6 ∷ rest
  encode_all (cons v vs) rest = 7 ∷ encode v (encode_all vs rest)

  encode_fields : Fields → Text → Text
  encode_fields end rest = 9 ∷ rest
  encode_fields (field n v fs) rest = 10 ∷ encode_text n (encode v (encode_fields fs rest))

decode-encode_text :
    (s rest : Text) → decode_stack (encode_text s rest) ≡ chars s ∷ decode_stack rest
decode-encode_text [] rest = refl
decode-encode_text (c ∷ s) rest =
    let tag : (c * 13 + 11) % 13 ≡ 11 = omega arith in
    let char : (c * 13 + 11) / 13 ≡ c = omega arith in
    rw tag (rw char (rw (decode-encode_text s rest) refl))

mutual
  unfolding encode

  decode-encode :
      (v : Value) (rest : Text) → decode_stack (encode v rest) ≡ a_value v ∷ decode_stack rest
  decode-encode null rest = refl
  decode-encode (bool true) rest = refl
  decode-encode (bool false) rest = refl
  decode-encode (number s) rest = ap add_number (decode-encode_text s rest)
  decode-encode (string s) rest = ap add_string (decode-encode_text s rest)
  decode-encode (array vs) rest = ap add_array (decode-encode_all vs rest)
  decode-encode (object fs) rest = ap add_object (decode-encode_fields fs rest)

  decode-encode_all :
      (vs : Values) (rest : Text)
      → decode_stack (encode_all vs rest) ≡ some_values vs ∷ decode_stack rest
  decode-encode_all nil rest = refl
  decode-encode_all (cons v vs) rest =
      ap add_cons (
        decode-encode v (encode_all vs rest)
        ∙ ap (λ st. a_value v ∷ st) (decode-encode_all vs rest))

  decode-encode_fields :
      (fs : Fields) (rest : Text)
      → decode_stack (encode_fields fs rest) ≡ some_fields fs ∷ decode_stack rest
  decode-encode_fields end rest = refl
  decode-encode_fields (field n v fs) rest = ap add_field (
      decode-encode_text n (encode v (encode_fields fs rest))
      ∙ ap (λ st. chars n ∷ st)
          (decode-encode v (encode_fields fs rest)
            ∙ ap (λ st. a_value v ∷ st) (decode-encode_fields fs rest)))

abbrev top : Stack → Option Value
top (a_value v ∷ st) = some v
top _ = none

top-printed : (v : Value) → top (decode_stack (encode v [])) ≡ some v
top-printed v = ap top (decode-encode v [])

abbrev sample_codec : Codec
unfolding encode
sample_codec = record {
  encode = λ t. t;
  decode = λ t. some t;
  to_vec = λ v. encode v [];
  from_slice = λ t. top (decode_stack t);
}

sample-IsCodec : IsCodec sample_codec
unfolding encode
sample-IsCodec = record { decodes = λ t. refl; parses = top-printed }

abbrev sample_cipher : Cipher
sample_cipher = record {
  nonce_for = λ plaintext aad. text "twelve bytes";
  seal = λ nonce plaintext aad. some plaintext;
  unseal = λ nonce ciphertext aad. some ciphertext;
}

sample-IsCipher : IsCipher sample_cipher
sample-IsCipher = record {
  size = λ plaintext aad. refl;
  unseals = λ nonce plaintext aad ciphertext h. cc;
}

-- A state is a token.
abbrev before_newline : Text → Text
before_newline [] = []
before_newline (c ∷ []) = []
before_newline (c ∷ d ∷ s) = c ∷ before_newline (d ∷ s)

before_newline-append : (s : Text) → before_newline (s ++ b'\n' ∷ []) ≡ s
before_newline-append [] = refl
before_newline-append (c ∷ []) = refl
before_newline-append (c ∷ d ∷ s) = ap (λ t. c ∷ t) (before_newline-append (d ∷ s))

abbrev of_option : Option Value → Result Text Value
of_option none = err []
of_option (some v) = ok v

abbrev token_of : Value → Result Text Text
token_of (object (field n (string s) end)) = ok s
token_of _ = err []

abbrev token_state : Text → Value
token_state s = object (field (text "token") (string s) end)

abbrev sample_format : Format Text
unfolding encode
sample_format = record {
  to_value = λ s. ok (token_state s);
  from_value = token_of;
  print = λ v. ok (encode v []);
  parse = λ t. of_option (top (decode_stack (before_newline t)));
}

sample-IsFormat : IsFormat sample_format
unfolding encode is_plain
sample-IsFormat = record {
  parses = λ v bytes h.
      let same : encode v [] ≡ bytes = cc in
      subst (λ t. sample_format.parse (t ++ b'\n' ∷ []) ≡ ok v) same
        (rw (before_newline-append (encode v [])) (rw (top-printed v) refl));
  reads = λ a v h. (let same : token_state a ≡ v = cc in subst (λ x. token_of x ≡ ok a) same refl);
  plain = λ a v h. (let same : token_state a ≡ v = cc in subst (λ x. is_plain x ≡ true) same refl);
}

abbrev no_refusal : Steps
no_refusal = record {
  create_root = none;
  private_root = none;
  create_parent = none;
  private_parent = none;
  create_temporary = none;
  private_temporary = none;
  write_bytes = none;
  write_newline = none;
  sync = none;
  persist = none;
  private_file = none;
  sync_parent = none;
  read_file = none;
  remove_file = none;
}

saved :
    (save sample_codec
      (some sample_cipher)
      sample_format
      no_refusal
      (text "/s")
      (text "qqpd")
      (text "main")
      (text "abc")
      []).1
    ≡ ok tt
unfolding save is_secret_field encode
saved = refl

load-save_example :
    load sample_codec
      (some sample_cipher)
      sample_format
      no_refusal
      (text "/s")
      (text "qqpd")
      (text "main")
      (save sample_codec
        (some sample_cipher)
        sample_format
        no_refusal
        (text "/s")
        (text "qqpd")
        (text "main")
        (text "abc")
        []).0
    ≡ ok (some (text "abc"))
load-save_example =
    load-save sample_codec (some sample_cipher) sample_format no_refusal (text "/s") (text "qqpd")
      (text "main") (text "abc") [] sample-IsCodec sample-IsCipher sample-IsFormat refl saved

save-KeepsFile_example :
    KeepsFile sample_codec
      (some sample_cipher)
      sample_format
      no_refusal
      (text "/s")
      (text "qqpd")
      (text "main")
      (text "abc")
      []
      (save sample_codec
        (some sample_cipher)
        sample_format
        no_refusal
        (text "/s")
        (text "qqpd")
        (text "main")
        (text "abc")
        []).0
      (text "/s/qqpd/main.json")
save-KeepsFile_example =
    save-KeepsFile sample_codec (some sample_cipher) sample_format no_refusal (text "/s")
      (text "qqpd") (text "main") (text "abc") [] (text "/s/qqpd/main.json")
