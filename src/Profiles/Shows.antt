-- ===== src/Profiles/Shows.antt =====
-- app/routes/profile_routes.py: the values of a patch and the profile that it is applied to.
use bank_flow_digital_bankin.Base.{ℕ, Option, none, some, ◌≡◌, refl, Bool-cases, inl, inr}
use bank_flow_digital_bankin.Models.{UserProfile}
use bank_flow_digital_bankin.Profiles.Payload.{ProfilePatch}
use bank_flow_digital_bankin.Profiles.{or_keep, patched, same_fields, apply_patch}

-- The values of a patch, as the profile shows them.
abbrev Shown : {A : Type 0} → Option A → Option A → Type 0
Shown none shown = Unit
Shown (some a) shown = shown ≡ some a

pub record ShowsPatch (x : ProfilePatch) (p : UserProfile) : Type 0 where
  pub phone_number : Shown x.phone_number p.phone_number
  pub date_of_birth : Shown x.date_of_birth p.date_of_birth
  pub id_type : Shown x.id_type p.id_type
  pub id_number : Shown x.id_number p.id_number
  pub address_line1 : Shown x.address_line1 p.address_line1
  pub address_city : Shown x.address_city p.address_city
  pub address_country : Shown x.address_country p.address_country

or_keep-Shown : {A : Type 0} (o old : Option A) → Shown o (or_keep o old)
or_keep-Shown none old = tt
or_keep-Shown (some a) old = refl

patched-ShowsPatch : (x : ProfilePatch) (p : UserProfile) → ShowsPatch x (patched x p)
patched-ShowsPatch x p = record {
  phone_number = or_keep-Shown x.phone_number p.phone_number;
  date_of_birth = or_keep-Shown x.date_of_birth p.date_of_birth;
  id_type = or_keep-Shown x.id_type p.id_type;
  id_number = or_keep-Shown x.id_number p.id_number;
  address_line1 = or_keep-Shown x.address_line1 p.address_line1;
  address_city = or_keep-Shown x.address_city p.address_city;
  address_country = or_keep-Shown x.address_country p.address_country;
}

ShowsPatch-stamped :
    (x : ProfilePatch) (p : UserProfile) (t : ℕ)
    → ShowsPatch x p
    → ShowsPatch x (record p { updated_at = t })
ShowsPatch-stamped x p t h = record {
  phone_number = h.phone_number;
  date_of_birth = h.date_of_birth;
  id_type = h.id_type;
  id_number = h.id_number;
  address_line1 = h.address_line1;
  address_city = h.address_city;
  address_country = h.address_country;
}

pub apply_patch-ShowsPatch :
    (x : ProfilePatch) (now : ℕ) (p : UserProfile) → ShowsPatch x (apply_patch x now p)
unfolding apply_patch
apply_patch-ShowsPatch x now p = elim (Bool-cases (same_fields p (patched x p))) [
  | inl same ↦ rw same (patched-ShowsPatch x p)
  | inr other ↦ rw other (ShowsPatch-stamped x (patched x p) now (patched-ShowsPatch x p))
]
