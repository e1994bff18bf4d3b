-- ===== src/Channel/Store/Changes.antt =====
-- The loops of ChannelStore's methods in src/channel/mod.rs, one name at a time: what they do to the
-- list as a map from names to switches, and that names stay distinct.
use panshou.Prelude.{
  ◌≤◌, ◌≡◌, refl, ◌∙◌, ap, Bool, true, false, ◌&&◌, Option, none, some, List, [], ◌∷◌, ◌++◌, arith,
  ◌==◌, if◌then◌else◌, any, retain, length, is_some, or_option, All, All-append, All-retain,
  Bool-cases, inl, inr,
}
use panshou.Prelude.Keyed.{Distinct}
use panshou.Prelude.Keyed.Pushing.{append-Distinct}
use panshou.Text.{Text, text_beq, text_beq_iff, text_eq}
use panshou.Channel.{Channel, name_of}
use panshou.Channel.Names.Laws.{IsChannel}
use panshou.Channel.Store.{
  has_name, enabled_at, set_enabled_at, Change, add_one, other_name, remove_one, enabled_named,
  disable_first, disable_one, each, is_unchanged,
}

abbrev pub Named : Channel → Type 0
Named c = IsChannel c.name

-- Distinct channel names.
abbrev pub IsValid : List Channel → Type 0
IsValid cs = Distinct name_of cs × All Named cs

pub has_name-enabled_at : (n : Text) (cs : List Channel) → has_name n cs ≡ is_some (enabled_at n cs)
has_name-enabled_at n [] = refl
has_name-enabled_at n (c ∷ cs) = ground (arith, has_name-enabled_at n cs)

-- The switch that a name gets from the names of a call.
abbrev pub given : Bool → Bool → Option Bool
given enabled named = if named then some enabled else none

pub enabled_at-append :
    (n name : Text) (enabled : Bool) (cs : List Channel)
    → enabled_at n (cs ++ record { name = name; enabled = enabled } ∷ [])
      ≡ or_option (enabled_at n cs) (given enabled (text_beq name n))
enabled_at-append n name enabled [] = refl
enabled_at-append n name enabled (c ∷ cs) = ground (arith, enabled_at-append n name enabled cs)

pub enabled_at-set_enabled_at :
    (n name : Text) (enabled : Bool) (cs : List Channel)
    → enabled_at n (set_enabled_at name enabled cs)
      ≡ (if text_beq name n && has_name name cs then some enabled else enabled_at n cs)
enabled_at-set_enabled_at n name enabled [] = ground arith
enabled_at-set_enabled_at n name enabled (c ∷ cs) = ground (
  arith,
  text_beq_iff c.name name,
  text_beq_iff c.name n,
  text_beq_iff name n,
  enabled_at-set_enabled_at n name enabled cs,
)

pub enabled_at-retain :
    (n name : Text) (cs : List Channel)
    → enabled_at n (retain (other_name name) cs)
      ≡ (if text_beq name n then none else enabled_at n cs)
enabled_at-retain n name [] = ground arith
enabled_at-retain n name (c ∷ cs) = ground (
  arith,
  text_beq_iff c.name name,
  text_beq_iff c.name n,
  text_beq_iff name n,
  enabled_at-retain n name cs,
)

-- Names are left alone by a change of switches.
pub has_key-set_enabled_at :
    (n name : Text) (enabled : Bool) (cs : List Channel)
    → has_name n (set_enabled_at name enabled cs) ≡ has_name n cs
has_key-set_enabled_at n name enabled [] = refl
has_key-set_enabled_at n name enabled (c ∷ cs) =
    ground (arith, has_key-set_enabled_at n name enabled cs)

pub set_enabled_at-IsValid :
    (name : Text) (enabled : Bool) (cs : List Channel)
    → IsValid cs
    → IsValid (set_enabled_at name enabled cs)
set_enabled_at-IsValid name enabled [] h = h
set_enabled_at-IsValid name enabled (c ∷ cs) (d, v) = elim (Bool-cases (text_beq c.name name)) [
  | inl e ↦ rw e (d, v)
  | inr e ↦
      let rest = set_enabled_at-IsValid name enabled cs (d.1, v.1) in
      rw e ((has_key-set_enabled_at c.name name enabled cs ∙ d.0, rest.0), (v.0, rest.1))
]

has_name-retain :
    (n : Text) (p : Channel → Bool) (cs : List Channel)
    → has_name n cs ≡ false
    → has_name n (retain p cs) ≡ false
has_name-retain n p [] h = refl
has_name-retain n p (c ∷ cs) h = ground (arith, has_name-retain n p cs)

retain-Distinct :
    (p : Channel → Bool) (cs : List Channel) → Distinct name_of cs → Distinct name_of (retain p cs)
retain-Distinct p [] d = tt
retain-Distinct p (c ∷ cs) d = elim (Bool-cases (p c)) [
  | inl e ↦ rw e (has_name-retain c.name p cs d.0, retain-Distinct p cs d.1)
  | inr e ↦ rw e (retain-Distinct p cs d.1)
]

-- What one name does: it keeps the list valid, and if it counts as no change there is none.
abbrev pub StepOk : (Change → Text → Change) → Type 0
StepOk one =
    (ch : Change) (name : Text)
    → IsValid ch.0
    → IsChannel name
    → IsValid (one ch name).0
      × (is_unchanged (one ch name).1 ≡ true
          → ((one ch name).0 ≡ ch.0) × (is_unchanged ch.1 ≡ true))

pub each-StepOk :
    (one : Change → Text → Change) (names : List Text) (ch : Change)
    → StepOk one
    → IsValid ch.0
    → All IsChannel names
    → IsValid (each one ch names).0
      × (is_unchanged (each one ch names).1 ≡ true
          → ((each one ch names).0 ≡ ch.0) × (is_unchanged ch.1 ≡ true))
each-StepOk one [] ch step v h = (v, λ e. (refl, e))
each-StepOk one (name ∷ names) ch step v h =
    let first = step ch name v h.0 in
    let rest = each-StepOk one names (one ch name) step first.0 h.1 in
    (rest.0, λ e. let later = rest.1 e in let now = first.1 later.1 in (later.0 ∙ now.0, now.1))

pub push-IsValid :
    (name : Text) (enabled : Bool) (cs : List Channel)
    → has_name name cs ≡ false
    → IsChannel name
    → IsValid cs
    → IsValid (cs ++ record { name = name; enabled = enabled } ∷ [])
push-IsValid name enabled cs e k v = (
  append-Distinct name_of cs (record { name = name; enabled = enabled }) e v.0,
  All-append Named cs (record { name = name; enabled = enabled } ∷ []) v.1 (k, tt),
)

pub add_one-StepOk : (enabled : Bool) → StepOk (add_one enabled)
add_one-StepOk enabled (cs, s) name v k = elim (Bool-cases (has_name name cs)) [
  | inl e ↦ rw e (v, λ u. (refl, ground arith))
  | inr e ↦ rw e (push-IsValid name enabled cs e k v, λ u. absurd (ground arith))
]

length-retain : (p : Channel → Bool) (cs : List Channel) → length (retain p cs) ≤ length cs
length-retain p [] = omega arith
length-retain p (c ∷ cs) = ground (arith, length-retain p cs)

retain_all :
    (p : Channel → Bool) (cs : List Channel) → length cs ≡ length (retain p cs) → retain p cs ≡ cs
retain_all p [] h = refl
retain_all p (c ∷ cs) h = elim (Bool-cases (p c)) [
  | inl e ↦ rw e (ap (λ r. c ∷ r) (retain_all p cs (ground arith)))
  | inr e ↦ absurd (ground (arith, length-retain p cs))
]

pub remove_one-StepOk : StepOk remove_one
remove_one-StepOk (cs, s) name v k =
    let kept = retain (other_name name) cs in
    let valid : IsValid kept =
      (retain-Distinct (other_name name) cs v.0, All-retain Named (other_name name) cs v.1) in
    elim (Bool-cases (length cs == length kept)) [
      | inl e ↦ rw e (valid, λ u. (retain_all (other_name name) cs (ground arith), ground arith))
      | inr e ↦ rw e (valid, λ u. absurd (ground arith))
    ]

-- With distinct names, the first channel that has the name and is enabled is the one of the name.
pub disable_first_lem :
    (name : Text) (cs : List Channel)
    → Distinct name_of cs
    → any (enabled_named name) cs ≡ true
    → disable_first name cs ≡ set_enabled_at name false cs
disable_first_lem name [] d h = cc
disable_first_lem name (c ∷ cs) d h = elim (Bool-cases (text_beq c.name name)) [
  | inl e ↦ elim (Bool-cases c.enabled) [
    | inl k ↦ rw (e, k) refl
    | inr k ↦ absurd (ground (arith, text_beq_iff c.name name, not_enabled name cs, d.0))
  ]
  | inr e ↦ rw e (ap (λ r. c ∷ r) (disable_first_lem name cs d.1 (ground arith)))
]
  where
    not_enabled :
        (name : Text) (cs : List Channel)
        → has_name name cs ≡ false
        → any (enabled_named name) cs ≡ false
    not_enabled name [] h = refl
    not_enabled name (c ∷ cs) h = ground (arith, not_enabled name cs)

pub disable_one-StepOk : StepOk disable_one
disable_one-StepOk (cs, s) name v k = elim (Bool-cases (any (enabled_named name) cs)) [
  | inl e ↦
      rw (e, disable_first_lem name cs v.0 e)
        (set_enabled_at-IsValid name false cs v, λ u. absurd (ground arith))
  | inr e ↦ rw e (v, λ u. (refl, u))
]
