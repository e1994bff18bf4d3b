-- ===== src/Channel/Store/Saving.antt =====
-- ChannelStore in src/channel/mod.rs: what `load` reads, and what a call of `modify` leaves behind.
use panshou.Prelude.{
  ◌≤◌, ◌≡◌, refl, sym, ◌∙◌, ap, subst, Bool, true, false, ◌&&◌, ◌||◌, Option, none, some, List, [],
  ◌∷◌, ◌++◌, arith, ltb, ◌==◌, All, append-nil, append_assoc, Bool-cases, inl, inr,
}
use panshou.Prelude.Results.{ok, err, ◌>>=◌, ◌>>◌, map_err, >>=-eq_ok, Result-cases, map_err-eq_ok}
use panshou.Prelude.Keyed.Pushing.{has_key-append}
use panshou.Text.{Text, text_beq_iff, text_eq}
use panshou.Env.{Env}
use panshou.Channel.{
  max_enabled_channels, Channel, ChannelList, name_of, default_list, ChangeSummary, parse,
  serialize, ChannelResult,
}
use panshou.Channel.Names.{normalize_channel}
use panshou.Channel.Names.Laws.{IsChannel, normalize_channel-IsChannel, normalize_channel_fixed}
use panshou.Channel.Store.{
  Toml, Disk, step, has_name, enabled_at, enabled_count, merge_channel, Change, Operation,
  is_unchanged, Saved, saved, merge_all, accept_list, read_content, load, write_content, write_list,
  commit, apply, modify,
}
use panshou.Channel.Store.Changes.{
  IsValid, has_name-enabled_at, set_enabled_at-IsValid, push-IsValid,
}

-- Printing and reading back with `toml` gives the same list.
abbrev pub RoundTrip : Toml → Type 0
RoundTrip toml =
    (list : ChannelList) (content : Text)
    → toml.print_list list ≡ ok content
    → toml.read_list content ≡ ok list

module _ (env : Env) (toml : Toml) (disk : Disk) where
  merge_channel-IsValid :
      (name : Text) (enabled : Bool) (channels : List Channel) (found : Option Bool)
      → enabled_at name channels ≡ found
      → IsChannel name
      → IsValid channels
      → IsValid (merge_channel found name enabled channels)
  merge_channel-IsValid name enabled channels none e k v =
      push-IsValid name enabled channels (ground (arith, has_name-enabled_at name channels)) k v
  merge_channel-IsValid name enabled channels (some old) e k v =
      set_enabled_at-IsValid name (old || enabled) channels v

  merge_all-IsValid :
      (channels cs : List Channel) {out : List Channel}
      → merge_all env toml disk channels cs ≡ ok out
      → IsValid channels
      → IsValid out
  merge_all-IsValid channels [] {out} h v =
      let same : channels ≡ out = ground arith in subst IsValid same v
  merge_all-IsValid channels (c ∷ cs) {out} h v =
      let (name, e, rest) =
        >>=-eq_ok (normalize_channel env c.name)
          (λ name.
            merge_all env toml disk
              (merge_channel (enabled_at name channels) name c.enabled channels) cs)
          h in
      merge_all-IsValid (merge_channel (enabled_at name channels) name c.enabled channels) cs rest (
        merge_channel-IsValid name c.enabled channels (enabled_at name channels) refl
          ((normalize_channel-IsChannel env c.name name).0 e) v)

  -- A valid list is read as it is.
  still_absent :
      (channels : List Channel) (c : Channel) (cs : List Channel)
      → All (λ x. has_name x.name channels ≡ false) cs
      → has_name c.name cs ≡ false
      → All (λ x. has_name x.name (channels ++ c ∷ []) ≡ false) cs
  still_absent channels c [] h k = tt
  still_absent channels c (x ∷ cs) h k = (
    ground (
      arith,
      has_key-append name_of x.name channels (c ∷ []),
      text_beq_iff c.name x.name,
      text_beq_iff x.name c.name,
      h.0,
    ),
    still_absent channels c cs h.1 (ground arith),
  )

  merge_all_fixed :
      (channels cs : List Channel)
      → All (λ x. has_name x.name channels ≡ false) cs
      → IsValid cs
      → merge_all env toml disk channels cs ≡ ok (channels ++ cs)
  merge_all_fixed channels [] h v = ap ok (sym (append-nil channels))
  merge_all_fixed channels (c ∷ cs) h (d, v) =
      let missing : enabled_at c.name channels ≡ none =
        ground (arith, has_name-enabled_at c.name channels, h.0) in
      rw (normalize_channel_fixed env c.name v.0, missing)
        (merge_all_fixed (channels ++ c ∷ []) cs (still_absent channels c cs h.1 d.0) (d.1, v.1)
          ∙ ap ok (append_assoc channels (c ∷ []) cs))

  none_yet : (cs : List Channel) → All (λ x. has_name x.name [] ≡ false) cs
  none_yet [] = tt
  none_yet (c ∷ cs) = (refl, none_yet cs)

  default-IsValid : IsValid default_list.channels
  default-IsValid = ((refl, tt), ((refl, omega arith, refl, (λ e. cc), (λ e. cc), λ e. cc), tt))

  with_channels : (list : ChannelList) (channels : List Channel) → ChannelResult ChannelList
  with_channels list channels = ok (record list { channels = channels })

  accept_list-IsValid :
      (list : ChannelList) {out : ChannelList}
      → accept_list env toml disk list ≡ ok out
      → (out.version ≡ 1) × IsValid out.channels
  unfolding with_channels
  accept_list-IsValid list {out} h = elim (Bool-cases (list.version == 1)) [
    | inl e ↦
        let (channels, k, r) =
          >>=-eq_ok (merge_all env toml disk [] list.channels) (with_channels list) (rw e at h) in
        let same : record list { channels = channels } ≡ out = ground arith in
        subst (λ l. (l.version ≡ 1) × IsValid l.channels) same
          (ground arith, merge_all-IsValid [] list.channels k (tt, tt))
    | inr e ↦ absurd (ground arith)
  ]

  -- What is read is valid, and a valid list that was printed is read back.
  pub read_content-IsValid :
      (file : Option Text) {list : ChannelList}
      → read_content env toml disk file ≡ ok list
      → (list.version ≡ 1) × IsValid list.channels
  read_content-IsValid none {list} h =
      let same : default_list ≡ list = ground arith in
      subst (λ l. (l.version ≡ 1) × IsValid l.channels) same (refl, default-IsValid)
  read_content-IsValid (some input) {list} h =
      let (read, e, r) =
        >>=-eq_ok (map_err parse (toml.read_list input)) (accept_list env toml disk) h in
      accept_list-IsValid read r

  read_content_printed :
      (list : ChannelList) (content : Text)
      → RoundTrip toml
      → toml.print_list list ≡ ok content
      → list.version ≡ 1
      → IsValid list.channels
      → read_content env toml disk (some content) ≡ ok list
  read_content_printed list content trip e one v =
      rw (trip list content e, one)
        (rw (merge_all_fixed [] list.channels (none_yet list.channels) v) refl)

  -- After a successful commit: nothing was written, or the new list was.
  abbrev CommitOk : Bool → ChannelList → Change → Option Text × ChangeSummary → Type 0
  CommitOk enforce list ch (none, s) = (s ≡ ch.1) × (is_unchanged ch.1 ≡ true)
  CommitOk enforce list ch (some content, s) =
      (s ≡ ch.1)
      × (toml.print_list (record list { channels = ch.0 }) ≡ ok content)
      × (is_unchanged ch.1 ≡ false)
      × (enforce ≡ true → enabled_count ch.0 ≤ max_enabled_channels)

  write_content_lem :
      (s : ChangeSummary) (content : Text) {out : Option Text × ChangeSummary}
      → write_content env toml disk s content ≡ ok out
      → (some content, s) ≡ out
  write_content_lem s content {out} h = ground arith

  write_list-CommitOk :
      (enforce : Bool) (list : ChannelList) (ch : Change) {out : Option Text × ChangeSummary}
      → is_unchanged ch.1 ≡ false
      → (enforce ≡ true → enabled_count ch.0 ≤ max_enabled_channels)
      → write_list env toml disk (record list { channels = ch.0 }) ch.1 ≡ ok out
      → CommitOk enforce list ch out
  write_list-CommitOk enforce list ch {out} u few h =
      let new = record list { channels = ch.0 } in
      let (content, e, r) =
        >>=-eq_ok (map_err serialize (toml.print_list new)) (write_content env toml disk ch.1) h in
      subst (CommitOk enforce list ch) (write_content_lem ch.1 content r)
        (refl, map_err-eq_ok serialize (toml.print_list new) e, u, few)

  commit-CommitOk :
      (enforce : Bool) (list : ChannelList) (ch : Change) {out : Option Text × ChangeSummary}
      → commit env toml disk enforce list ch ≡ ok out
      → CommitOk enforce list ch out
  commit-CommitOk enforce list (channels, s) {out} h = elim (Bool-cases (is_unchanged s)) [
    | inl e ↦
        let same : (none, s) ≡ out = ground arith in
        subst (CommitOk enforce list (channels, s)) same (refl, e)
    | inr e ↦ elim (Bool-cases (enforce && ltb max_enabled_channels (enabled_count channels))) [
      | inl many ↦ absurd (ground arith)
      | inr few ↦
          write_list-CommitOk enforce list (channels, s) e (λ k. ground arith) (rw (e, few) at h)
    ]
  ]

  -- How a call changes the file, seen as a map from names to switches: a failed call leaves it alone.
  abbrev pub Applies :
      ((Text → Option Bool) → Text → Option Bool) → (enforce : Bool) → Option Text → Saved → Type 0
  Applies spec enforce file (after, err e) = after ≡ file
  Applies spec enforce file (after, ok s) =
      (old : ChannelList) × (new : ChannelList) × (read_content env toml disk file ≡ ok old)
      × (read_content env toml disk after ≡ ok new)
      × IsValid new.channels
      × ((n : Text) → enabled_at n new.channels ≡ spec (λ m. enabled_at m old.channels) n)
      × (is_unchanged s ≡ true → after ≡ file)
      × (enforce ≡ true
          → is_unchanged s ≡ false
          → enabled_count new.channels ≤ max_enabled_channels)

  -- What `modify` expects of an operation.
  abbrev pub OperationOk : ((Text → Option Bool) → Text → Option Bool) → Operation → Type 0
  OperationOk spec operation =
      (cs : List Channel) (ch : Change)
      → IsValid cs
      → operation cs ≡ ok ch
      → IsValid ch.0
        × (is_unchanged ch.1 ≡ true → ch.0 ≡ cs)
        × ((n : Text) → enabled_at n ch.0 ≡ spec (λ m. enabled_at m cs) n)

  after_commit :
      (spec : (Text → Option Bool) → Text → Option Bool) (enforce : Bool) (file : Option Text)
      (list : ChannelList) (ch : Change) (out : Option Text × ChangeSummary)
      → RoundTrip toml
      → read_content env toml disk file ≡ ok list
      → IsValid ch.0
        × (is_unchanged ch.1 ≡ true → ch.0 ≡ list.channels)
        × ((n : Text) → enabled_at n ch.0 ≡ spec (λ m. enabled_at m list.channels) n)
      → CommitOk enforce list ch out
      → Applies spec enforce file (saved file (ok out))
  after_commit spec enforce file list ch (none, s) trip e (valid, same, view) (k, u) = (
    list,
    list,
    e,
    e,
    subst IsValid (same u) valid,
    (λ n. ap (enabled_at n) (sym (same u)) ∙ view n),
    (λ q. refl),
    λ k' c. absurd (ground arith),
  )
  after_commit spec enforce file list ch (some content, s) trip e (valid, same, view)
        (k, printed, u, few) =
      (
        list,
        record list { channels = ch.0 },
        e,
        read_content_printed (record list { channels = ch.0 }) content trip printed
            (read_content-IsValid file e).0 valid,
        valid,
        view,
        (λ q. absurd (ground arith)),
        λ k' c. few k',
      )

  step_then :
      {A : Type 0} (o : Option Text) (k : ChannelResult A) {a : A} → (step o >> k) ≡ ok a → k ≡ ok a
  step_then none k h = h
  step_then (some e) k h = cc

  -- The parts of a call that succeeded.
  modify_parts :
      (enforce : Bool) (operation : Operation) (file : Option Text)
      {out : Option Text × ChangeSummary}
      → (step disk.create_dir
          >> (step disk.open_lock
              >> (load env toml disk file >>= apply env toml disk enforce operation)))
        ≡ ok out
      → (list : ChannelList) × (read_content env toml disk file ≡ ok list)
        × ((ch : Change) × (operation list.channels ≡ ok ch)
            × (commit env toml disk enforce list ch ≡ ok out))
  unfolding load
  modify_parts enforce operation file {out} h =
      let loaded = load env toml disk file >>= apply env toml disk enforce operation in
      let opened =
        step_then disk.open_lock loaded
          (step_then disk.create_dir (step disk.open_lock >> loaded) h) in
      let (list, e, r) =
        >>=-eq_ok (load env toml disk file) (apply env toml disk enforce operation) opened in
      let (ch, k, c) = >>=-eq_ok (operation list.channels) (commit env toml disk enforce list) r in
      (list, step_then disk.read_file (read_content env toml disk file) e, (ch, k, c))

  pub modify-Applies :
      (spec : (Text → Option Bool) → Text → Option Bool) (enforce : Bool) (operation : Operation)
      (file : Option Text)
      → RoundTrip toml
      → OperationOk spec operation
      → Applies spec enforce file (modify env toml disk enforce operation file)
  unfolding modify
  modify-Applies spec enforce operation file trip good =
      elim (Result-cases (
        step disk.create_dir
        >> (step disk.open_lock
            >> (load env toml disk file >>= apply env toml disk enforce operation)))) [
              | inl (out, e) ↦
                  let (list, k, (ch, o, c)) = modify_parts enforce operation file e in
                  rw e (
                    after_commit spec enforce file list ch out trip k
                      (good list.channels ch (read_content-IsValid file k).1 o)
                      (commit-CommitOk enforce list ch c))
              | inr (f, e) ↦ rw e refl
            ]
