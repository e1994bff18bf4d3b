-- ===== src/Core/Model/Equality.antt =====
-- The derived `PartialEq` of merged links, by fields, and that it decides equality.
use panshou.Prelude.{
  ℕ, ◌≡◌, ◌↔◌, Bool, true, false, ◌&&◌, Option, none, some, List, [], ◌∷◌, arith, ◌==◌,
}
use panshou.Text.{text_beq, text_beq_iff}
use panshou.Core.Cloud.{cloud_beq}
use panshou.Core.Model.{
  Source, telegram, provider, source_beq, CheckState, good, bad, locked, unsupported, uncertain,
  CheckResult, MergedLink,
}

abbrev option_beq {ℓ} : {A : Type ℓ} → (A → A → Bool) → Option A → Option A → Bool
option_beq eq none none = true
option_beq eq (some a) (some b) = eq a b
option_beq eq _ _ = false

abbrev list_beq {ℓ} : {A : Type ℓ} → (A → A → Bool) → List A → List A → Bool
list_beq eq [] [] = true
list_beq eq (a ∷ s) (b ∷ t) = eq a b && list_beq eq s t
list_beq eq _ _ = false

abbrev bool_beq : Bool → Bool → Bool
bool_beq true b = b
bool_beq false true = false
bool_beq false false = true

abbrev state_code : CheckState → ℕ
state_code good = 0
state_code bad = 1
state_code locked = 2
state_code unsupported = 3
state_code uncertain = 4

check_beq : CheckResult → CheckResult → Bool
check_beq a b =
    (state_code a.state == state_code b.state)
    && bool_beq a.cache_hit b.cache_hit
    && option_beq ◌==◌ a.checked_at b.checked_at
    && option_beq ◌==◌ a.expires_at b.expires_at
    && option_beq text_beq a.summary b.summary

unfoldable pub merged_beq : MergedLink → MergedLink → Bool
unfolding check_beq
merged_beq a b =
    cloud_beq a.cloud_type b.cloud_type
    && text_beq a.url b.url
    && option_beq text_beq a.password b.password
    && text_beq a.note b.note
    && option_beq ◌==◌ a.datetime b.datetime
    && source_beq a.source b.source
    && list_beq text_beq a.images b.images
    && option_beq check_beq a.check b.check

module _ {ℓ} {A : Type ℓ} (eq : A → A → Bool) (iff : (a b : A) → (eq a b ≡ true) ↔ (a ≡ b)) where
  option_beq_iff : (a b : Option A) → (option_beq eq a b ≡ true) ↔ (a ≡ b)
  option_beq_iff none none = ground arith
  option_beq_iff none (some b) = ground arith
  option_beq_iff (some a) none = ground arith
  option_beq_iff (some a) (some b) = ground (arith, iff a b)

  list_beq_iff : (s t : List A) → (list_beq eq s t ≡ true) ↔ (s ≡ t)
  list_beq_iff [] [] = ground arith
  list_beq_iff [] (b ∷ t) = ground arith
  list_beq_iff (a ∷ s) [] = ground arith
  list_beq_iff (a ∷ s) (b ∷ t) = ground (arith, iff a b, list_beq_iff s t)

pub source_beq_iff : (a b : Source) → (source_beq a b ≡ true) ↔ (a ≡ b)
source_beq_iff (telegram a) (telegram b) = ground (arith, text_beq_iff a b)
source_beq_iff (provider a) (provider b) = ground (arith, text_beq_iff a b)
source_beq_iff (telegram a) (provider b) = ground arith
source_beq_iff (provider a) (telegram b) = ground arith
