-- ===== src/Channel/Names/Lists.antt =====
-- Lists of normal names in src/channel/mod.rs: `normalize_channels`.
use panshou.Prelude.{
  ◌≡◌, refl, sym, ◌∙◌, ap, Bool, true, false, ◌||◌, Option, none, some, List, [], ◌∷◌, ◌++◌, arith,
  any, All, All-append, Bool-cases, inl, inr, subst, append-nil, append_assoc,
}
use panshou.Prelude.Results.{Result, ok, err, >>=-eq_ok, Result-cases}
use panshou.Prelude.Keyed.{Distinct}
use panshou.Prelude.Keyed.Pushing.{has_key-append, append-Distinct}
use panshou.Text.{Text, trim, text_beq, text_beq_iff, text_eq}
use panshou.Env.{Env}
use panshou.Channel.{ChannelError, invalid_name}
use panshou.Channel.Names.{
  is_name, raw_name, checked, normalize_channel, is_member, push_name, normalize_from,
  normalize_channels,
}
use panshou.Channel.Names.Laws.{IsChannel, normalize_channel-IsChannel, normalize_channel_fixed}

abbrev pub self : Text → Text
self name = name

-- The name is the normal form of the text.
abbrev pub is_normal_form : Result ChannelError Text → Text → Bool
is_normal_form (ok m) n = text_beq m n
is_normal_form (err e) n = false

abbrev pub push_all : List Text → List Text → List Text
push_all result [] = result
push_all result (name ∷ names) = push_all (push_name result name) names

push_name-Distinct :
    (result : List Text) (name : Text)
    → Distinct self result
    → Distinct self (push_name result name)
push_name-Distinct result name d = elim (Bool-cases (is_member name result)) [
  | inl e ↦ rw e d
  | inr e ↦ rw e (append-Distinct self result name e d)
]

push_name-All :
    (result : List Text) (name : Text)
    → All IsChannel result
    → IsChannel name
    → All IsChannel (push_name result name)
push_name-All result name h k = elim (Bool-cases (is_member name result)) [
  | inl e ↦ rw e h
  | inr e ↦ rw e (All-append IsChannel result (name ∷ []) h (k, tt))
]

-- A name that is known adds no name.
known_adds_none :
    (n name : Text) (result : List Text)
    → is_member name result ≡ true
    → is_member n result ≡ (is_member n result || text_beq name n)
known_adds_none n name result e = elim (Bool-cases (text_beq name n)) [
  | inl k ↦
      let same : name ≡ n = (text_beq_iff name n).0 k in
      let here : is_member n result ≡ true = subst (λ x. is_member x result ≡ true) same e in
      here ∙ sym (ap (λ b. b || text_beq name n) here)
  | inr k ↦ ground arith
]

is_member-push_name :
    (n name : Text) (result : List Text)
    → is_member n (push_name result name) ≡ (is_member n result || text_beq name n)
is_member-push_name n name result = elim (Bool-cases (is_member name result)) [
  | inl e ↦ rw e (known_adds_none n name result e)
  | inr e ↦ rw e (ground (arith, has_key-append self n result (name ∷ [])))
]

still_new :
    (n : Text) (result names : List Text)
    → All (λ m. is_member m result ≡ false) names
    → is_member n names ≡ false
    → All (λ m. is_member m (result ++ n ∷ []) ≡ false) names
still_new n result [] h a = tt
still_new n result (m ∷ names) h a = (
  ground (arith, has_key-append self m result (n ∷ []), text_beq_iff n m, text_beq_iff m n, h.0),
  still_new n result names h.1 (ground arith),
)

push_all_of_Distinct :
    (result names : List Text)
    → All (λ m. is_member m result ≡ false) names
    → Distinct self names
    → push_all result names ≡ result ++ names
push_all_of_Distinct result [] h d = sym (append-nil result)
push_all_of_Distinct result (n ∷ names) h d = rw h.0 (
    push_all_of_Distinct (result ++ n ∷ []) names (still_new n result names h.1 d.0) d.1
    ∙ append_assoc result (n ∷ []) names)

none_yet : (names : List Text) → All (λ m. is_member m [] ≡ false) names
none_yet [] = tt
none_yet (n ∷ names) = (refl, none_yet names)

module _ (env : Env) where
  abbrev pub reads_as : Text → Text → Bool
  reads_as n s = is_normal_form (normalize_channel env s) n

  -- What a run over the names adds to a list.
  normalize_from_lem :
      (result names : List Text) {ns : List Text}
      → normalize_from env result names ≡ ok ns
      → Distinct self result
      → All IsChannel result
      → Distinct self ns
        × All IsChannel ns
        × ((n : Text) → is_member n ns ≡ (is_member n result || any (reads_as n) names))
  normalize_from_lem result [] {ns} h d c =
      let same : result ≡ ns = ground arith in
      (
        subst (Distinct self) same d,
        subst (All IsChannel) same c,
        λ n. ap (is_member n) (sym same) ∙ or_false (is_member n result),
      )
    where
      or_false : (b : Bool) → b ≡ (b || false)
      or_false b = ground arith
  normalize_from_lem result (name ∷ names) {ns} h d c =
      let (m, e, rest) =
        >>=-eq_ok (normalize_channel env name) (λ n. normalize_from env (push_name result n) names)
          h in
      let r =
        normalize_from_lem (push_name result m) names rest (push_name-Distinct result m d)
          (push_name-All result m c ((normalize_channel-IsChannel env name m).0 e)) in
      (r.0, r.1, λ n. r.2 n ∙ adds n m e)
    where
      adds :
          (n m : Text)
          → normalize_channel env name ≡ ok m
          → (is_member n (push_name result m) || any (reads_as n) names)
            ≡ (is_member n result || any (reads_as n) (name ∷ names))
      adds n m e = rw e (ground (arith, is_member-push_name n m result))

  -- A list of channel names is only rid of repetitions.
  normalize_from_fixed :
      (result names : List Text)
      → All IsChannel names
      → normalize_from env result names ≡ ok (push_all result names)
  normalize_from_fixed result [] h = refl
  normalize_from_fixed result (n ∷ names) h =
      rw (normalize_channel_fixed env n h.0) (normalize_from_fixed (push_name result n) names h.1)

  -- Channel names are always accepted.
  pub normalize_channels_total :
      (names : List Text)
      → All IsChannel names
      → (ns : List Text) × (normalize_channels env names ≡ ok ns)
  unfolding normalize_channels
  normalize_channels_total names h = (push_all [] names, normalize_from_fixed [] names h)

  -- A list that is accepted comes out as distinct channel names, those that its entries are read
  -- as and no others, and is accepted again as it is.
  pub normalize_channels_lem :
      (names ns : List Text)
      → normalize_channels env names ≡ ok ns
      → Distinct self ns
        × All IsChannel ns
        × ((n : Text) → is_member n ns ≡ any (reads_as n) names)
        × (normalize_channels env ns ≡ ok ns)
  unfolding normalize_channels
  normalize_channels_lem names ns h =
      let r = normalize_from_lem [] names h tt tt in
      (
        r.0,
        r.1,
        r.2,
        normalize_from_fixed [] ns r.1 ∙ ap ok (push_all_of_Distinct [] ns (none_yet ns) r.0),
      )

  checked-error :
      (input : Text) (raw : Option Text) {e : ChannelError}
      → checked env input raw ≡ err e
      → (s : Text) × (invalid_name s ≡ e)
  checked-error input none h = (input, ground arith)
  checked-error input (some name) h = elim (Bool-cases (is_name name)) [
    | inl k ↦ absurd (ground arith)
    | inr k ↦ (input, ground arith)
  ]

  normalize_from-error :
      (result names : List Text) {e : ChannelError}
      → normalize_from env result names ≡ err e
      → (s : Text) × (invalid_name s ≡ e)
  unfolding normalize_channel
  normalize_from-error result [] h = cc
  normalize_from-error result (name ∷ names) {e} h =
      elim (Result-cases (normalize_channel env name)) [
        | inl (n, k) ↦ normalize_from-error (push_name result n) names (rw k at h)
        | inr (f, k) ↦
            let same : f ≡ e = ground arith in
            subst (λ x. (s : Text) × (invalid_name s ≡ x)) same
              (checked-error (trim name) (raw_name env (trim name)) k)
      ]

  -- A list is refused only for a name.
  pub normalize_channels-error :
      (names : List Text) {e : ChannelError}
      → normalize_channels env names ≡ err e
      → (s : Text) × (invalid_name s ≡ e)
  unfolding normalize_channels
  normalize_channels-error names h = normalize_from-error [] names h
