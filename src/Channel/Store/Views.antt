-- ===== src/Channel/Store/Views.antt =====
-- What the loops of ChannelStore's methods in src/channel/mod.rs do to the map from names to
-- switches.
use panshou.Prelude.{
  suc, ◌≡◌, refl, sym, ◌∙◌, ap, subst, Bool, true, false, ◌||◌, Option, none, some, List, [], ◌∷◌,
  arith, if◌then◌else◌, any, retain, or_option, All, Bool-cases, inl, inr,
}
use panshou.Prelude.Results.{ok, >>=-eq_ok}
use panshou.Text.{Text, text_beq, text_beq_iff, text_eq}
use panshou.Channel.{Channel, ChangeSummary}
use panshou.Channel.Names.{is_member}
use panshou.Channel.Names.Laws.{IsChannel}
use panshou.Channel.Store.{
  has_name, enabled_at, set_enabled_at, Change, add_one, other_name, remove_one, same_bool, set_one,
  enabled_named, disable_one, set_each, each, set_all, is_unchanged,
}
use panshou.Channel.Store.Changes.{
  IsValid, has_name-enabled_at, given, enabled_at-append, enabled_at-set_enabled_at,
  enabled_at-retain, set_enabled_at-IsValid, disable_first_lem, disable_one-StepOk,
}

add_one-view :
    (enabled : Bool) (n name : Text) (ch : Change)
    → enabled_at n (add_one enabled ch name).0
      ≡ or_option (enabled_at n ch.0) (given enabled (text_beq name n))
add_one-view enabled n name (cs, s) = elim (Bool-cases (has_name name cs)) [
  | inl e ↦ rw e (ground (arith, has_name-enabled_at name cs, text_beq_iff name n))
  | inr e ↦ rw e (enabled_at-append n name enabled cs)
]

-- A channel that is known keeps its switch.
pub add-view :
    (enabled : Bool) (n : Text) (names : List Text) (ch : Change)
    → enabled_at n (each (add_one enabled) ch names).0
      ≡ or_option (enabled_at n ch.0) (given enabled (is_member n names))
add-view enabled n [] ch = ground arith
add-view enabled n (name ∷ names) ch =
    add-view enabled n names (add_one enabled ch name)
    ∙ ap (λ o. or_option o (given enabled (is_member n names))) (add_one-view enabled n name ch)
    ∙ ground arith

remove_one_list :
    (ch : Change) (name : Text) → (remove_one ch name).0 ≡ retain (other_name name) ch.0
remove_one_list (cs, s) name = ground arith

pub remove-view :
    (n : Text) (names : List Text) (ch : Change)
    → enabled_at n (each remove_one ch names).0
      ≡ (if is_member n names then none else enabled_at n ch.0)
remove-view n [] ch = refl
remove-view n (name ∷ names) ch =
    remove-view n names (remove_one ch name)
    ∙ ap (λ cs. if is_member n names then none else enabled_at n cs) (remove_one_list ch name)
    ∙ ground (arith, enabled_at-retain n name ch.0)

abbrev pub switched_off : Option Bool → Option Bool
switched_off none = none
switched_off (some b) = some false

already_off :
    (n : Text) (cs : List Channel)
    → any (enabled_named n) cs ≡ false
    → switched_off (enabled_at n cs) ≡ enabled_at n cs
already_off n [] h = refl
already_off n (c ∷ cs) h = ground (arith, already_off n cs)

enabled_known :
    (name : Text) (cs : List Channel) → any (enabled_named name) cs ≡ true → has_name name cs ≡ true
enabled_known name [] h = cc
enabled_known name (c ∷ cs) h = ground (arith, enabled_known name cs)

disable_one-view :
    (n name : Text) (ch : Change)
    → IsValid ch.0
    → enabled_at n (disable_one ch name).0
      ≡ (if text_beq name n then switched_off (enabled_at n ch.0) else enabled_at n ch.0)
disable_one-view n name (cs, s) v = elim (Bool-cases (any (enabled_named name) cs)) [
  | inl e ↦
      rw (e, disable_first_lem name cs v.0 e)
        (ground (
          arith,
          enabled_at-set_enabled_at n name false cs,
          enabled_known name cs,
          has_name-enabled_at name cs,
          text_beq_iff name n,
        ))
  | inr e ↦ rw e (ground (arith, already_off name cs, text_beq_iff name n))
]

twice_off : (o : Option Bool) → switched_off (switched_off o) ≡ switched_off o
twice_off none = refl
twice_off (some b) = refl

pub disable-view :
    (n : Text) (names : List Text) (ch : Change)
    → IsValid ch.0
    → All IsChannel names
    → enabled_at n (each disable_one ch names).0
      ≡ (if is_member n names then switched_off (enabled_at n ch.0) else enabled_at n ch.0)
disable-view n [] ch v h = refl
disable-view n (name ∷ names) ch v h =
    disable-view n names (disable_one ch name) (disable_one-StepOk ch name v h.0).0 h.1
    ∙ ap (λ o. if is_member n names then switched_off o else o) (disable_one-view n name ch v)
    ∙ ground (arith, twice_off (enabled_at n ch.0))

-- What one name of `set_enabled` does, if it is known.
abbrev SetOk : Bool → Change → Text → Change → Type 0
SetOk enabled ch name next =
    ((n : Text)
      → enabled_at n next.0 ≡ (if text_beq name n then some enabled else enabled_at n ch.0))
    × (IsValid ch.0 → IsValid next.0)
    × (is_unchanged next.1 ≡ true → (next.0 ≡ ch.0) × (is_unchanged ch.1 ≡ true))

set_one-SetOk :
    (enabled : Bool) (ch : Change) (name : Text) (found : Option Bool) {next : Change}
    → enabled_at name ch.0 ≡ found
    → set_one enabled ch name found ≡ ok next
    → SetOk enabled ch name next
set_one-SetOk enabled ch name none e h = cc
set_one-SetOk enabled (cs, s) name (some old) {next} e h =
    elim (Bool-cases (same_bool old enabled)) [
      | inl k ↦
          let same : (cs, s) ≡ next = ground arith in
          subst (SetOk enabled (cs, s) name) same
            ((λ n. ground (arith, text_beq_iff name n)), (λ v. v), λ u. (refl, u))
      | inr k ↦
          let same : (set_enabled_at name enabled cs, record s { changed = suc s.changed }) ≡ next =
            ground arith in
          subst (SetOk enabled (cs, s) name) same (
            (λ n.
                ground (
                  arith,
                  enabled_at-set_enabled_at n name enabled cs,
                  has_name-enabled_at name cs,
                )),
            set_enabled_at-IsValid name enabled cs,
            λ u. absurd (ground arith),
          )
    ]

-- A run over the names that succeeds.
pub set_all-lem :
    (enabled : Bool) (names : List Text) (ch : Change) {final : Change}
    → set_all enabled ch names ≡ ok final
    → ((n : Text)
        → enabled_at n final.0 ≡ (if is_member n names then some enabled else enabled_at n ch.0))
      × (IsValid ch.0 → IsValid final.0)
      × (is_unchanged final.1 ≡ true → (final.0 ≡ ch.0) × (is_unchanged ch.1 ≡ true))
set_all-lem enabled [] ch {final} h =
    let same : ch ≡ final = ground arith in
    (
      (λ n. ap (λ c. enabled_at n c.0) (sym same)),
      (λ v. subst (λ c. IsValid c.0) same v),
      λ u. (ap (λ c. c.0) (sym same), subst (λ c. is_unchanged c.1 ≡ true) (sym same) u),
    )
set_all-lem enabled (name ∷ names) ch {final} h =
    let (next, e, rest) =
      >>=-eq_ok (set_one enabled ch name (enabled_at name ch.0)) (λ c. set_all enabled c names) h in
    let one = set_one-SetOk enabled ch name (enabled_at name ch.0) refl e in
    let later = set_all-lem enabled names next rest in
    (
      (λ n.
          later.0 n
          ∙ ap (λ o. if is_member n names then some enabled else o) (one.0 n)
          ∙ ground arith),
      (λ v. later.1 (one.1 v)),
      λ u. let l = later.2 u in let o = one.2 l.1 in (l.0 ∙ o.0, o.1),
    )

abbrev pub switched_to : Bool → Option Bool → Option Bool
switched_to enabled none = none
switched_to enabled (some b) = some enabled

pub set_each-view :
    (enabled : Bool) (n : Text) (cs : List Channel) (s : ChangeSummary)
    → enabled_at n (set_each enabled cs s).0 ≡ switched_to enabled (enabled_at n cs)
set_each-view enabled n [] s = refl
set_each-view enabled n (c ∷ cs) s = ground (
  arith,
  set_each-view enabled n cs
      (if same_bool c.enabled enabled then s else record s { changed = suc s.changed }),
)

set_each-names :
    (enabled : Bool) (n : Text) (cs : List Channel) (s : ChangeSummary)
    → has_name n (set_each enabled cs s).0 ≡ has_name n cs
set_each-names enabled n [] s = refl
set_each-names enabled n (c ∷ cs) s =
    ap (λ b. text_beq c.name n || b)
      (set_each-names enabled n cs
        (if same_bool c.enabled enabled then s else record s { changed = suc s.changed }))

pub set_each-IsValid :
    (enabled : Bool) (cs : List Channel) (s : ChangeSummary)
    → IsValid cs
    → IsValid (set_each enabled cs s).0
set_each-IsValid enabled [] s v = v
set_each-IsValid enabled (c ∷ cs) s (d, v) =
    let t = if same_bool c.enabled enabled then s else record s { changed = suc s.changed } in
    let rest = set_each-IsValid enabled cs t (d.1, v.1) in
    ((set_each-names enabled c.name cs t ∙ d.0, rest.0), (v.0, rest.1))

pub set_each-unchanged :
    (enabled : Bool) (cs : List Channel) (s : ChangeSummary)
    → is_unchanged (set_each enabled cs s).1 ≡ true
    → ((set_each enabled cs s).0 ≡ cs) × (is_unchanged s ≡ true)
set_each-unchanged enabled [] s u = (refl, u)
set_each-unchanged enabled (c ∷ cs) s u =
    let t = if same_bool c.enabled enabled then s else record s { changed = suc s.changed } in
    let rest = set_each-unchanged enabled cs t u in
    let kept : same_bool c.enabled enabled ≡ true = ground (arith, rest.1) in
    let switch : enabled ≡ c.enabled = ground arith in
    ((λ i. record c { enabled = switch i } ∷ rest.0 i), ground (arith, rest.1))
