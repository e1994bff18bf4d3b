-- ===== src/State/Store/Laws.antt =====
-- StateStore in src/state/store.rs: what a saved profile is loaded as, and what is written.
use panshou.Prelude.{
  ◌≡◌, refl, sym, ◌∙◌, ap, true, ◌⊎◌, inl, inr, Option, none, some, [], ◌∷◌, ◌++◌, if◌then◌else◌,
  lookup, insert, lookup-insert, Bool-cases,
}
use panshou.Prelude.Results.{ok, err, >>=-eq_ok, mapped-eq_ok}
use panshou.Text.{Text, text_beq, text_beq_iff, text_eq}
use panshou.State.{Value, json, StateResult, Cipher, Codec, protect_secrets}
use panshou.State.Sealing.{IsCodec, AreCiphers, ok_inj}
use panshou.State.RoundTrip.{is_plain, reveal_secrets-protect_secrets}
use panshou.State.Hiding.{Hides, protect_secrets-Hides}
use panshou.State.Store.{
  Format, Steps, Files, step, profile_path, write_temporary, prepare, put, save, load,
}

-- Reading gives what was printed, and no state has the marker of an envelope.
pub record IsFormat {A : Type 0} (format : Format A) : Type 0 where
  pub parses :
      (v : Value) (bytes : Text)
      → format.print v ≡ ok bytes
      → format.parse (bytes ++ b'\n' ∷ []) ≡ ok v
  pub reads : (a : A) (v : Value) → format.to_value a ≡ ok v → format.from_value v ≡ ok a
  pub plain : (a : A) (v : Value) → format.to_value a ≡ ok v → is_plain v ≡ true

module _ {A : Type 0} (codec : Codec) (cipher : Option Cipher) (format : Format A) (steps : Steps)
    (root : Text) where
  -- What is put in place of a profile.
  abbrev pub IsWritten : (provider profile : Text) → A → (path content : Text) → Type 0
  IsWritten provider profile state path content =
      (value protected : Value) × (bytes : Text) × (profile_path root provider profile ≡ ok path)
      × (format.to_value state ≡ ok value)
      × (protect_secrets codec cipher none value ≡ ok protected)
      × (format.print protected ≡ ok bytes)
      × (content ≡ bytes ++ b'\n' ∷ [])

  prepare-IsWritten :
      (provider profile : Text) (state : A) {made : Text × Text}
      → prepare codec cipher format steps root provider profile state ≡ ok made
      → IsWritten provider profile state made.0 made.1
  unfolding prepare
  prepare-IsWritten provider profile state h =
      let (path, at, h1) = >>=-eq_ok (profile_path root provider profile) _ h in
      let (_, _, h2) = >>=-eq_ok (step steps.create_root) _ h1 in
      let (_, _, h3) = >>=-eq_ok (step steps.private_root) _ h2 in
      let (value, valued, h4) = mapped-eq_ok json (format.to_value state) _ h3 in
      let (protected, safe, h5) = >>=-eq_ok (protect_secrets codec cipher none value) _ h4 in
      let (bytes, printed, h6) = mapped-eq_ok json (format.print protected) _ h5 in
      let (_, _, h7) = >>=-eq_ok (write_temporary codec cipher format steps root) _ h6 in
      let same = ok_inj h7 in
      (
        value,
        protected,
        bytes,
        at ∙ ap (λ m. ok m.0) same,
        valued,
        safe,
        printed,
        sym (ap (λ m. m.1) same),
      )

  -- A file after a save: as it was, or the profile's, whose secrets are hidden.
  abbrev pub KeepsFile :
      (provider profile : Text) → A → (before after : Files) → (path : Text) → Type 0
  KeepsFile provider profile state before after path =
      (lookup path after ≡ lookup path before)
      ⊎ ((content : Text) × (protected : Value) × (bytes : Text) × (lookup path after
            ≡ some content)
          × (profile_path root provider profile ≡ ok path)
          × (format.print protected ≡ ok bytes)
          × (content ≡ bytes ++ b'\n' ∷ [])
          × Hides codec cipher none protected)

  put-KeepsFile :
      (provider profile : Text) (state : A) (files : Files) (r : StateResult (Text × Text))
      (path : Text)
      → prepare codec cipher format steps root provider profile state ≡ r
      → KeepsFile provider profile state files (put codec cipher format steps root files r).0 path
  put-KeepsFile provider profile state files (err e) path h = inl refl
  put-KeepsFile provider profile state files (ok made) path h =
      elim (Bool-cases (text_beq made.0 path)) [
        | inr k ↦ inl (
            lookup-insert made.0 path made.1 files
            ∙ ap (λ b. if b then some made.1 else lookup path files) k)
        | inl k ↦
            let (value, protected, bytes, at, valued, safe, printed, same) =
              prepare-IsWritten provider profile state h in
            inr (
              made.1,
              protected,
              bytes,
              lookup-insert made.0 path made.1 files
                  ∙ ap (λ b. if b then some made.1 else lookup path files) k,
              at ∙ ap ok ((text_beq_iff made.0 path).0 k),
              printed,
              same,
              protect_secrets-Hides codec cipher none value safe,
            )
      ]

  -- Whatever a save comes to, every file is as it was but for that of the profile; and that is as it
  -- was, or holds, printed, a value where every field with the name of a secret, at any depth, is
  -- empty or an envelope around the ciphertext of a value, if there is a key; and where every field
  -- with the name of a password is empty, if there is none.
  pub save-KeepsFile :
      (provider profile : Text) (state : A) (files : Files) (path : Text)
      → KeepsFile provider profile state files
          (save codec cipher format steps root provider profile state files).0
          path
  unfolding save
  save-KeepsFile provider profile state files path =
      put-KeepsFile provider profile state files
        (prepare codec cipher format steps root provider profile state) path refl

  put_back :
      (provider profile : Text) (state : A) (files : Files) (r : StateResult (Text × Text))
      → IsCodec codec
      → AreCiphers cipher
      → IsFormat format
      → steps.read_file ≡ none
      → prepare codec cipher format steps root provider profile state ≡ r
      → (put codec cipher format steps root files r).1 ≡ ok tt
      → load codec cipher format steps root provider profile
          (put codec cipher format steps root files r).0
        ≡ ok (some state)
  unfolding load
  put_back provider profile state files (err e) laws good readable free h k = cc
  put_back provider profile state files (ok made) laws good readable free h k =
      let (value, protected, bytes, at, valued, safe, printed, same) =
        prepare-IsWritten provider profile state h in
      let back =
        reveal_secrets-protect_secrets codec cipher laws good none value
          (readable.plain state value valued) safe in
      let held : lookup made.0 (insert made.0 made.1 files) ≡ some (bytes ++ b'\n' ∷ []) =
        lookup-insert made.0 made.0 made.1 files
        ∙ ap (λ b. if b then some made.1 else lookup made.0 files)
            ((text_beq_iff made.0 made.0).1 refl)
        ∙ ap some same in
      rw at (
        rw held (
          rw free (
            rw (readable.parses protected bytes printed)
              (rw back (rw (readable.reads state value valued) refl)))))

  -- A profile that was saved is loaded as it was, with the same key or again without one, if the file
  -- can be read, the JSON of a state reads back, and no state has the marker of an envelope.
  pub load-save :
      (provider profile : Text) (state : A) (files : Files)
      → IsCodec codec
      → AreCiphers cipher
      → IsFormat format
      → steps.read_file ≡ none
      → (save codec cipher format steps root provider profile state files).1 ≡ ok tt
      → load codec cipher format steps root provider profile
          (save codec cipher format steps root provider profile state files).0
        ≡ ok (some state)
  unfolding save
  load-save provider profile state files laws good readable free h =
      put_back provider profile state files
        (prepare codec cipher format steps root provider profile state) laws good readable free refl
        h
