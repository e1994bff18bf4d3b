-- ===== src/Core/Cloud/Names.antt =====
-- The names of cloud types read back, and the derived equality.
use panshou.Prelude.{◌≡◌, refl, ◌↔◌, sym, ◌∙◌, ap, true, some, get_elem?, ==_iff}
use panshou.Core.Cloud.{
  CloudType, baidu, to_string, ok, from_str, all_types, discriminant, cloud_beq,
}

-- The printed name of every cloud type parses back to that type.
pub from_str-to_string : (c : CloudType) → from_str (to_string c) ≡ ok c
unfolding from_str to_string
from_str-to_string baidu = refl
from_str-to_string _ = refl

get_elem?-all_types : (c : CloudType) → get_elem? all_types (discriminant c) ≡ some c
get_elem?-all_types baidu = refl
get_elem?-all_types _ = refl

eq_of_discriminant : (a b : CloudType) → discriminant a ≡ discriminant b → a ≡ b
eq_of_discriminant a b h =
    let same : some a ≡ some b =
      sym (get_elem?-all_types a) ∙ ap (get_elem? all_types) h ∙ get_elem?-all_types b in
    cc

cloud_beq_iff : (a b : CloudType) → (cloud_beq a b ≡ true) ↔ (a ≡ b)
cloud_beq_iff a b =
    (λ h. eq_of_discriminant a b ((==_iff _ _).0 h), λ e. (==_iff _ _).1 (ap discriminant e))
