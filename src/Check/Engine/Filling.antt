-- ===== src/Check/Engine/Filling.antt =====
-- What the first loop leaves in the slots, and that every item is accounted for.
use panshou.Prelude.{
  ℕ, zero, suc, ◌+◌, ◌<◌, ◌≡◌, refl, ◌∙◌, Bool, true, ◌||◌, Option, none, some, List, [], ◌∷◌,
  subst, arith, ◌==◌, ==_iff, length,
}
use panshou.Text.{Text}
use panshou.Env.{Env}
use panshou.Check.Cache.{CheckResult}
use panshou.Check.Item.{CheckItem, CheckOptions}
use panshou.Check.Engine.{UniqueCheck, Grouped, invalid_result, normalized_of, group_one, group}
use panshou.Check.Engine.Scatter.{Right, is_filled, Below, set-Below, set-is_filled}
use panshou.Check.Engine.Grouping.{some_covers, add_single, singles}

module _ (env : Env) (o : CheckOptions) (times : ℕ → ℕ) (wanted : List CheckResult) where
  -- The invalid items of a part of the list are wanted as the loop reports them.
  abbrev pub InvalidRight : ℕ → List CheckItem → Type 0
  InvalidRight index [] = Unit
  InvalidRight index (item ∷ items) =
      (normalized_of env o item ≡ none → Right wanted index (invalid_result (times index) item))
      × InvalidRight (suc index) items

  group_one-Below :
      (index : ℕ) (item : CheckItem) (g : Grouped) (n : Option Text)
      → (n ≡ none → Right wanted index (invalid_result (times index) item))
      → Below wanted g.slots
      → Below wanted (group_one env o times index item n g).slots
  group_one-Below index item g none h b =
      set-Below wanted g.slots index (invalid_result (times index) item) (h refl) b
  group_one-Below index item g (some n) h b = b

  pub group-Below :
      (index : ℕ) (items : List CheckItem) (g : Grouped)
      → InvalidRight index items
      → Below wanted g.slots
      → Below wanted (group env o times index items g).slots
  unfolding group
  group-Below index [] g h b = b
  group-Below index (item ∷ items) g h b =
      group-Below (suc index) items (group_one env o times index item (normalized_of env o item) g)
        h.1 (group_one-Below index item g (normalized_of env o item) h.0 b)

  group_one-is_filled :
      (index : ℕ) (item : CheckItem) (g : Grouped) (n : Option Text) (j : ℕ)
      → (n ≡ none → Right wanted index (invalid_result (times index) item))
      → Below wanted g.slots
      → is_filled g.slots j ≡ true
      → is_filled (group_one env o times index item n g).slots j ≡ true
  group_one-is_filled index item g none j h b f =
      set-is_filled wanted g.slots index j (invalid_result (times index) item) (h refl) b
      ∙ rw f (or_true (index == j))
    where
      or_true : (a : Bool) → (a || true) ≡ true
      or_true a = ground arith
  group_one-is_filled index item g (some n) j h b f = f

  -- A filled slot stays filled.
  group-is_filled :
      (index : ℕ) (items : List CheckItem) (g : Grouped) (j : ℕ)
      → InvalidRight index items
      → Below wanted g.slots
      → is_filled g.slots j ≡ true
      → is_filled (group env o times index items g).slots j ≡ true
  unfolding group
  group-is_filled index [] g j h b f = f
  group-is_filled index (item ∷ items) g j h b f =
      let n = normalized_of env o item in
      group-is_filled (suc index) items (group_one env o times index item n g) j h.1
        (group_one-Below index item g n h.0 b) (group_one-is_filled index item g n j h.0 b f)

  -- The slot of the item is filled now, or the item is an input of a single.
  now_or_later :
      (index : ℕ) (item : CheckItem) (items : List CheckItem) (g : Grouped) (n : Option Text)
      → (n ≡ none → Right wanted index (invalid_result (times index) item))
      → InvalidRight (suc index) items
      → Below wanted g.slots
      → is_filled
            (group env o times (suc index) items (group_one env o times index item n g)).slots
            index
          || some_covers index (add_single env o index item n (singles env o (suc index) items))
        ≡ true
  now_or_later index item items g none h hs b =
      let set_now =
        set-is_filled wanted g.slots index index (invalid_result (times index) item) (h refl) b
        ∙ ground (arith, ==_iff index index) in
      rw
        (group-is_filled (suc index) items (group_one env o times index item none g) index hs
          (group_one-Below index item g none h b) set_now)
        refl
  now_or_later index item items g (some n) h hs b = ground (arith, ==_iff index index)

  some_covers-add_single :
      (j index : ℕ) (item : CheckItem) (n : Option Text) (us : List UniqueCheck) (f : Bool)
      → f || some_covers j us ≡ true
      → f || some_covers j (add_single env o index item n us) ≡ true
  some_covers-add_single j index item none us f h = h
  some_covers-add_single j index item (some n) us f h = ground arith

  -- Every item has its slot filled, or is an input of a single.
  pub group_accounts :
      (index : ℕ) (items : List CheckItem) (g : Grouped) (i j : ℕ)
      → i < length items
      → index + i ≡ j
      → InvalidRight index items
      → Below wanted g.slots
      → is_filled (group env o times index items g).slots j
          || some_covers j (singles env o index items)
        ≡ true
  unfolding group singles
  group_accounts index [] g i j lt e h b = elim lt [ ]
  group_accounts index (item ∷ items) g zero j lt e h b =
      let here : index ≡ j = omega arith in
      subst
        (λ k.
          is_filled (group env o times index (item ∷ items) g).slots k
            || some_covers k (singles env o index (item ∷ items))
          ≡ true)
        here (now_or_later index item items g (normalized_of env o item) h.0 h.1 b)
  group_accounts index (item ∷ items) g (suc i) j lt e h b =
      let n = normalized_of env o item in
      some_covers-add_single j index item n (singles env o (suc index) items)
        (is_filled
          (group env o times (suc index) items (group_one env o times index item n g)).slots j)
        (group_accounts (suc index) items (group_one env o times index item n g) i j (omega arith)
          (omega arith) h.1 (group_one-Below index item g n h.0 b))
