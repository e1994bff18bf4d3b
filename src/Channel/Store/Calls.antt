-- ===== src/Channel/Store/Calls.antt =====
-- The public calls of ChannelStore in src/channel/mod.rs.
use panshou.Prelude.{
  ℕ, [], ◌∷◌, ◌||◌, subst, ◌≡◌, refl, sym, ◌∙◌, ap, Bool, true, false, Option, none, some, List,
  arith, if◌then◌else◌, any, or_option, All,
}
use panshou.Prelude.Results.{ok, err}
use panshou.Text.{Text, text_beq, trim_start_matches}
use panshou.Env.{Env}
use panshou.Core.Link.Titles.{lines_of}
use panshou.Channel.{Channel, no_change, ChannelError, ChannelResult}
use panshou.Channel.Names.{is_member, is_bom, normalize_channels, parse_catalog}
use panshou.Channel.Names.Laws.{IsChannel, normalize_channel_fixed}
use panshou.Channel.Names.Lists.{reads_as, normalize_channels_lem}
use panshou.Channel.Names.Catalog.{entry_reads_as, first_bad, CatalogVerdict, parse_catalog-verdict}
use panshou.Channel.Store.{
  Toml, Disk, enabled_at, Change, Operation, Saved, each, add_one, remove_one, disable_one, set_all,
  set_each, with_names, add, remove, set_enabled, disable_existing, set_all_enabled, import_parsed,
  import_text, is_unchanged,
}
use panshou.Channel.Store.Changes.{
  IsValid, StepOk, given, each-StepOk, add_one-StepOk, remove_one-StepOk, disable_one-StepOk,
}
use panshou.Channel.Store.Views.{
  add-view, remove-view, switched_off, disable-view, set_all-lem, switched_to, set_each-view,
  set_each-IsValid, set_each-unchanged,
}
use panshou.Channel.Store.Saving.{RoundTrip, Applies, OperationOk, modify-Applies}

-- The calls that change the list.
pub data Call : Type 0 where
  add_names set_names : List Text → Bool → Call
  remove_names disable_names : List Text → Call
  set_every : Bool → Call
  import_names : Text → Bool → Call

module _ (env : Env) (toml : Toml) (disk : Disk) where
  abbrev pub run_call : Call → Option Text → Saved
  run_call (add_names names enabled) file = add env toml disk names enabled file
  run_call (set_names names enabled) file = set_enabled env toml disk names enabled file
  run_call (remove_names names) file = remove env toml disk names file
  run_call (disable_names names) file = disable_existing env toml disk names file
  run_call (set_every enabled) file = set_all_enabled env toml disk enabled file
  run_call (import_names input enabled) file = import_text env toml disk input enabled file

  abbrev named : List Text → Text → Bool
  named names n = any (reads_as env n) names

  abbrev View : Type 0
  View = Text → Option Bool

  -- What the calls mean for the map from names to switches.
  abbrev pub meaning : Call → View → View
  meaning (add_names names enabled) m n = or_option (m n) (given enabled (named names n))
  meaning (set_names names enabled) m n = if named names n then some enabled else m n
  meaning (remove_names names) m n = if named names n then none else m n
  meaning (disable_names names) m n = if named names n then switched_off (m n) else m n
  meaning (set_every enabled) m n = switched_to enabled (m n)
  meaning (import_names input enabled) m n =
      or_option (m n)
        (given enabled (any (entry_reads_as env n) (lines_of (trim_start_matches is_bom input))))

  -- The calls that enable channels enforce the limit.
  abbrev pub enforces : Call → Bool
  enforces (add_names names enabled) = enabled
  enforces (set_names names enabled) = enabled
  enforces (remove_names names) = false
  enforces (disable_names names) = false
  enforces (set_every enabled) = enabled
  enforces (import_names input enabled) = enabled

  -- A call with names: refused, or made with what they are read as.
  with_names-Applies :
      (spec : View → View) (names : List Text) (r : ChannelResult (List Text)) (enforce : Bool)
      (operation : List Text → Operation) (file : Option Text)
      → RoundTrip toml
      → normalize_channels env names ≡ r
      → ((found : List Text)
          → All IsChannel found
          → ((n : Text) → named names n ≡ is_member n found)
          → OperationOk env toml disk spec (operation found))
      → Applies env toml disk spec enforce file (with_names env toml disk r enforce operation file)
  with_names-Applies spec names (err e) enforce operation file trip k good = refl
  with_names-Applies spec names (ok found) enforce operation file trip k good =
      let laws = normalize_channels_lem env names found k in
      modify-Applies env toml disk spec enforce (operation found) file trip
        (good found laws.1 (λ n. sym (laws.2 n)))

  -- A loop over the names, from its step and its view.
  each-OperationOk :
      (spec : View → View) (one : Change → Text → Change) (found : List Text)
      → StepOk one
      → All IsChannel found
      → ((cs : List Channel) (n : Text)
          → IsValid cs
          → enabled_at n (each one (cs, no_change) found).0 ≡ spec (λ m. enabled_at m cs) n)
      → OperationOk env toml disk spec (λ channels. ok (each one (channels, no_change) found))
  each-OperationOk spec one found step valid view cs ch v h =
      let loop = each-StepOk one found (cs, no_change) step v valid in
      let same : each one (cs, no_change) found ≡ ch = ground arith in
      subst
        (λ c.
          IsValid c.0
          × (is_unchanged c.1 ≡ true → c.0 ≡ cs)
          × ((n : Text) → enabled_at n c.0 ≡ spec (λ m. enabled_at m cs) n))
        same (loop.0, (λ u. (loop.1 u).0), λ n. view cs n v)

  set-OperationOk :
      (names : List Text) (enabled : Bool) (found : List Text)
      → ((n : Text) → named names n ≡ is_member n found)
      → OperationOk env toml disk
          (meaning (set_names names enabled))
          (λ channels. set_all enabled (channels, no_change) found)
  set-OperationOk names enabled found mem cs ch v h =
      let laws = set_all-lem enabled found (cs, no_change) h in
      (
        laws.1 v,
        (λ u. (laws.2 u).0),
        λ n. laws.0 n ∙ ap (λ b. if b then some enabled else enabled_at n cs) (sym (mem n)),
      )

  set_each-OperationOk :
      (enabled : Bool)
      → OperationOk env toml disk
          (meaning (set_every enabled))
          (λ channels. ok (set_each enabled channels no_change))
  set_each-OperationOk enabled cs ch v h =
      let same : set_each enabled cs no_change ≡ ch = ground arith in
      subst
        (λ c.
          IsValid c.0
          × (is_unchanged c.1 ≡ true → c.0 ≡ cs)
          × ((n : Text) → enabled_at n c.0 ≡ switched_to enabled (enabled_at n cs)))
        same
        (
          set_each-IsValid enabled cs no_change v,
          (λ u. (set_each-unchanged enabled cs no_change u).0),
          λ n. set_each-view enabled n cs no_change,
        )

  add-Applies :
      (spec : View → View) (names : List Text) (enabled : Bool) (file : Option Text)
      → RoundTrip toml
      → ((m : View) (n : Text) → spec m n ≡ or_option (m n) (given enabled (named names n)))
      → Applies env toml disk spec enabled file (add env toml disk names enabled file)
  unfolding add
  add-Applies spec names enabled file trip means =
      with_names-Applies spec names (normalize_channels env names) enabled
        (λ found channels. ok (each (add_one enabled) (channels, no_change) found)) file trip refl
        (λ found valid mem.
          each-OperationOk spec (add_one enabled) found (add_one-StepOk enabled) valid (λ cs n v.
            add-view enabled n found (cs, no_change)
            ∙ ap (λ b. or_option (enabled_at n cs) (given enabled b)) (sym (mem n))
            ∙ sym (means (λ m. enabled_at m cs) n)))

  names_of_catalog : (ns : List Text) → All IsChannel ns → (n : Text) → named ns n ≡ is_member n ns
  names_of_catalog [] v n = refl
  names_of_catalog (m ∷ ms) v n =
      rw (normalize_channel_fixed env m v.0)
        (ap (λ b. text_beq m n || b) (names_of_catalog ms v.1 n))

  import-Applies :
      (input : Text) (enabled : Bool) (file : Option Text) (bad : Option (ℕ × ChannelError))
      (r : ChannelResult (List Text))
      → RoundTrip toml
      → CatalogVerdict env (lines_of (trim_start_matches is_bom input)) bad r
      → Applies env toml disk
          (meaning (import_names input enabled))
          enabled
          file
          (import_parsed env toml disk r enabled file)
  import-Applies input enabled file (some (k, e)) r trip v = rw v refl
  import-Applies input enabled file none r trip (ns, e, d, valid, mem) = rw e (
      add-Applies (meaning (import_names input enabled)) ns enabled file trip (λ m n.
        ap (λ b. or_option (m n) (given enabled b))
          (sym (mem n) ∙ sym (names_of_catalog ns valid n))))

  -- If printing and reading back with `toml` gives the same list, every call either fails and leaves
  -- the file as it is, or leaves a file that is read as distinct channel names and whose switches,
  -- by name, are what the call means: added names keep the switch that they had, and no other
  -- name is touched. A call that counts no change leaves the file as it is, and one that enables
  -- channels and counts a change leaves at most 128 of them enabled.
  pub run_call-Applies :
      (call : Call) (file : Option Text)
      → RoundTrip toml
      → Applies env toml disk (meaning call) (enforces call) file (run_call call file)
  unfolding remove set_enabled disable_existing set_all_enabled import_text
  run_call-Applies (add_names names enabled) file trip =
      add-Applies (meaning (add_names names enabled)) names enabled file trip (λ m n. refl)
  run_call-Applies (set_names names enabled) file trip =
      with_names-Applies (meaning (set_names names enabled)) names (normalize_channels env names)
        enabled (λ found channels. set_all enabled (channels, no_change) found) file trip refl
        (λ found valid mem. set-OperationOk names enabled found mem)
  run_call-Applies (remove_names names) file trip =
      with_names-Applies (meaning (remove_names names)) names (normalize_channels env names) false
        (λ found channels. ok (each remove_one (channels, no_change) found)) file trip refl
        (λ found valid mem.
          each-OperationOk (meaning (remove_names names)) remove_one found remove_one-StepOk valid
            (λ cs n v.
              remove-view n found (cs, no_change)
              ∙ ap (λ b. if b then none else enabled_at n cs) (sym (mem n))))
  run_call-Applies (disable_names names) file trip =
      with_names-Applies (meaning (disable_names names)) names (normalize_channels env names) false
        (λ found channels. ok (each disable_one (channels, no_change) found)) file trip refl
        (λ found valid mem.
          each-OperationOk (meaning (disable_names names)) disable_one found disable_one-StepOk
            valid
            (λ cs n v.
              disable-view n found (cs, no_change) v valid
              ∙ ap (λ b. if b then switched_off (enabled_at n cs) else enabled_at n cs)
                  (sym (mem n))))
  run_call-Applies (set_every enabled) file trip =
      modify-Applies env toml disk (meaning (set_every enabled)) enabled
        (λ channels. ok (set_each enabled channels no_change)) file trip
        (set_each-OperationOk enabled)
  run_call-Applies (import_names input enabled) file trip =
      let lines = lines_of (trim_start_matches is_bom input) in
      import-Applies input enabled file (first_bad env 1 lines) (parse_catalog env input) trip
        (parse_catalog-verdict env input)
