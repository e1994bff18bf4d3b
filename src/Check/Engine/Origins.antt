-- ===== src/Check/Engine/Origins.antt =====
-- Where the inputs of a unique link come from: the valid items with its key.
use panshou.Prelude.{
  ℕ, suc, ◌≡◌, refl, sym, ◌∙◌, subst, Option, none, some, List, [], ◌∷◌, ◌++◌, length-append,
  append_assoc, arith, get_elem?, length, All, All-append,
}
use panshou.Prelude.Keyed.{absorb_all}
use panshou.Prelude.Keyed.Laws.{absorb_all-All}
use panshou.Text.{Text, text_eq}
use panshou.Env.{Env}
use panshou.Check.Item.{CheckItem, CheckOptions}
use panshou.Check.Engine.{UniqueCheck, add_inputs, unique_key, normalized_of, key_of_item}
use panshou.Check.Engine.Grouping.{add_single, singles}

module _ (env : Env) (o : CheckOptions) (all : List CheckItem) where
  -- An input of a key comes from a valid item with that key.
  pub record FromItem (key : Text) (p : ℕ × Text) : Type 0 where
    pub item : CheckItem
    pub normalized : Text
    pub at : get_elem? all p.0 ≡ some item
    pub valid : normalized_of env o item ≡ some normalized
    pub same_key : key_of_item env o item normalized ≡ key
    pub same_url : p.1 ≡ item.url

  abbrev pub AllFrom : UniqueCheck → Type 0
  AllFrom u = All (FromItem u.key) u.inputs

  -- A part of the list, from an index on.
  abbrev pub PartOf : ℕ → List CheckItem → Type 0
  PartOf index [] = Unit
  PartOf index (item ∷ items) = (get_elem? all index ≡ some item) × PartOf (suc index) items

  add_single-AllFrom :
      (index : ℕ) (item : CheckItem) (n : Option Text) (us : List UniqueCheck)
      → get_elem? all index ≡ some item
      → normalized_of env o item ≡ n
      → All AllFrom us
      → All AllFrom (add_single env o index item n us)
  add_single-AllFrom index item none us at e h = h
  add_single-AllFrom index item (some n) us at e h = (
    (
      record { item = item; normalized = n; at = at; valid = e; same_key = refl; same_url = refl },
      tt,
    ),
    h,
  )

  singles-AllFrom :
      (index : ℕ) (items : List CheckItem)
      → PartOf index items
      → All AllFrom (singles env o index items)
  unfolding singles
  singles-AllFrom index [] p = tt
  singles-AllFrom index (item ∷ items) p =
      add_single-AllFrom index item (normalized_of env o item) (singles env o (suc index) items) p.0
        refl (singles-AllFrom (suc index) items p.1)

  pub gathered-AllFrom :
      PartOf 0 all → All AllFrom (absorb_all unique_key add_inputs [] (singles env o 0 all))
  gathered-AllFrom p =
      absorb_all-All unique_key add_inputs AllFrom
        (λ old new same h k.
          All-append (FromItem old.key) old.inputs new.inputs h
            (subst (λ key. All (FromItem key) new.inputs) (sym same) k))
        [] (singles env o 0 all) tt (singles-AllFrom 0 all p)

  get_elem?-append_one :
      (pre : List CheckItem) (item : CheckItem) (items : List CheckItem)
      → get_elem? (pre ++ item ∷ items) (length pre) ≡ some item
  get_elem?-append_one [] item items = refl
  get_elem?-append_one (x ∷ pre) item items = get_elem?-append_one pre item items

  suffix-PartOf : (pre items : List CheckItem) → all ≡ pre ++ items → PartOf (length pre) items
  suffix-PartOf pre [] e = tt
  suffix-PartOf pre (item ∷ items) e = (
    rw e (get_elem?-append_one pre item items),
    subst (λ n. PartOf n items) (length-append pre (item ∷ []) ∙ omega arith)
        (suffix-PartOf (pre ++ item ∷ []) items (e ∙ sym (append_assoc pre (item ∷ []) items))),
  )

  pub PartOf_lem : PartOf 0 all
  PartOf_lem = suffix-PartOf [] all refl
