-- ===== src/Prelude/Perms.antt =====
-- What does not depend on the order of a list.
use mathlib.Core.Path.{◌≡◌, refl, sym, ◌∙◌, ap, subst}
use mathlib.Core.Bool.{Bool, ◌||◌}
use mathlib.Core.List.{List, ◌∷◌, Permᴰ}
use native.Mathlib.Omega.{arith}
use panshou.Prelude.Lists.{All, any}
use panshou.Prelude.Maps.{Eq}
use panshou.Prelude.Keyed.{has_key, Distinct}

pub All-perm {ℓ κ} :
    {A : Type ℓ} (P : A → Type κ) {xs ys : List A} → Permᴰ xs ys → All P xs → All P ys
All-perm P Permᴰ.nil h = h
All-perm P (Permᴰ.cons e p) h = (subst P e h.0, All-perm P p h.1)
All-perm P (Permᴰ.swap e f) h = (subst P f h.1.0, (subst P e h.0, h.1.1))
All-perm P (Permᴰ.trans p q) h = All-perm P q (All-perm P p h)

pub any-perm {ℓ} :
    {A : Type ℓ} (test : A → Bool) {xs ys : List A} → Permᴰ xs ys → any test xs ≡ any test ys
any-perm test Permᴰ.nil = refl
any-perm test (Permᴰ.cons e p) = λ i. test (e i) || any-perm test p i
any-perm test (Permᴰ.swap {a = a} {b = b} {l = l} e f) =
    swap_or (test a) (test b) (any test l) ∙ λ i. test (f i) || (test (e i) || any test l)
  where
    swap_or : (a b c : Bool) → (a || (b || c)) ≡ (b || (a || c))
    swap_or a b c = ground arith
any-perm test (Permᴰ.trans p q) = any-perm test p ∙ any-perm test q

module _ {ℓ κ} {K : Type κ} {A : Type ℓ} ⦃e : Eq K⦄ (key : A → K) where
  pub Distinct-perm : {xs ys : List A} → Permᴰ xs ys → Distinct key xs → Distinct key ys
  Distinct-perm Permᴰ.nil d = d
  Distinct-perm (Permᴰ.cons {l₁ = l} same p) d =
      (sym (any-perm _ p) ∙ ap (λ a. has_key key (key a) l) (sym same) ∙ d.0, Distinct-perm p d.1)
  Distinct-perm (Permᴰ.swap {a = a} {b = b} {b' = b'} {l = l} p q) d =
      subst (λ x. Distinct key (x ∷ b' ∷ l)) q (subst (λ x. Distinct key (b ∷ x ∷ l)) p swapped)
    where
      swapped : Distinct key (b ∷ a ∷ l)
      swapped = (
        ground (arith, e.beq_iff (key a) (key b), e.beq_iff (key b) (key a), d.0, d.1.0),
        (ground (arith, d.0), d.1.1),
      )
  Distinct-perm (Permᴰ.trans p q) d = Distinct-perm q (Distinct-perm p d)
