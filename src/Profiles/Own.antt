-- ===== src/Profiles/Own.antt =====
-- app/routes/profile_routes.py, `update_my_profile`: its write in closed form, and what it leaves of the
-- profiles.
use bank_flow_digital_bankin.Base.{
  ℕ, Option, none, some, true, List, [], ◌∷◌, ◌++◌, ◌≡◌, ◌≢◌, refl, arith, ap, ◌∙◌, Bool-cases, inl,
  inr, ◌==◌,
}
use bank_flow_digital_bankin.Base.Rows.{
  get-modify_self, get-modify_ne, key-get, all-modify, all-get,
}
use bank_flow_digital_bankin.Models.{UserProfile}
use bank_flow_digital_bankin.Database.{Session, ok, violation, commit, profile_fits}
use bank_flow_digital_bankin.Database.Sound.{sound}
use bank_flow_digital_bankin.Database.Numbers.{unique_numbers-modify}
use bank_flow_digital_bankin.Invariant.{IsStored-beside, IsValid, seen}
use bank_flow_digital_bankin.Http.{Caller, Body, respond, serve}
use bank_flow_digital_bankin.Profiles.Payload.{ProfilePatch, ProfilePayload, load_profile_patch}
use bank_flow_digital_bankin.Profiles.Fits.{patch_fits, load-fits, apply_patch-fits}
use bank_flow_digital_bankin.Profiles.Shows.{ShowsPatch, apply_patch-ShowsPatch}
use bank_flow_digital_bankin.Profiles.Keeps.{
  owner, with_profiles_sound, own_profile, with_own, IsEnsured, own-IsEnsured, ensured,
  get_or_create-own, get_my_profile-shown,
}
use bank_flow_digital_bankin.Profiles.{
  find_profile, modify_profile, with_profiles, get_my_profile, patched, same_fields, apply_patch,
  write_profile, update_loaded, update_my_profile,
}

apply_patch-owner :
    (x : ProfilePatch) (now : ℕ) (p : UserProfile) → (apply_patch x now p).user_id ≡ p.user_id
unfolding apply_patch
apply_patch-owner x now p = elim (Bool-cases (same_fields p (patched x p))) [
  | inl same ↦ rw same
  | inr other ↦ rw other
]

apply_patch-kyc :
    (x : ProfilePatch) (now : ℕ) (p : UserProfile) → (apply_patch x now p).kyc_status ≡ p.kyc_status
unfolding apply_patch
apply_patch-kyc x now p = elim (Bool-cases (same_fields p (patched x p))) [
  | inl same ↦ rw same
  | inr other ↦ rw other
]

module _ (c : Caller) (x : ProfilePatch) (s : Session) (v : IsValid s)
    (fits : patch_fits x ≡ true) where
  abbrev k : ℕ
  k = c.user_id

  abbrev base : Session
  base = with_own k s

  abbrev own : IsEnsured k s (own_profile k s, base)
  own = own-IsEnsured k s v

  abbrev new_rows : List UserProfile
  new_rows = modify_profile k (apply_patch x base.now) base.working.user_profiles

  abbrev pub new_profile : UserProfile
  new_profile = apply_patch x base.now (own_profile k s)

  abbrev pub rewritten : Session
  rewritten = record (with_profiles new_rows base) {
    committed = (with_profiles new_rows base).working;
  }

  rewritten_sound : violation (with_profiles new_rows base).working ≡ none
  rewritten_sound =
      let h = sound base.working own.sound_tables in
      with_profiles_sound base new_rows h
        (all-modify owner profile_fits k (apply_patch x base.now) base.working.user_profiles
          h.profiles_fit own.found
          (apply_patch-fits x base.now (own_profile k s) fits
            (all-get owner profile_fits k base.working.user_profiles h.profiles_fit own.found)))
        (unique_numbers-modify owner owner k (apply_patch x base.now) (apply_patch-owner x base.now)
            base.working.user_profiles
          ∙ h.profiles_unique)

  pub write_profile-rewritten :
      write_profile c x s ≡ (ok (respond 200 (Body.profile_updated new_profile)), rewritten)
  unfolding write_profile
  write_profile-rewritten = rw (get_or_create-own k s v, rewritten_sound, commit)

  pub rewritten-IsValid : IsValid rewritten
  rewritten-IsValid = record {
    clean = refl;
    stored =
        IsStored-beside (omega (arith, own.next_transaction)) (omega (arith, own.next_account))
          (seen v) rewritten_sound own.transactions own.entries own.accounts own.records;
  }

  pub rewritten-found : find_profile k rewritten.working.user_profiles ≡ some new_profile
  rewritten-found =
      get-modify_self owner k (apply_patch x base.now) base.working.user_profiles own.found (
        apply_patch-owner x base.now (own_profile k s)
        ∙ key-get owner k base.working.user_profiles own.found)

ensured-own :
    (i : ℕ) (s : Session) {p : UserProfile}
    → find_profile i s.working.user_profiles ≡ some p
    → own_profile i s ≡ p
ensured-own i s h = rw (h, own_profile)

-- In a valid session a change of the caller's profile that the schema takes is answered 200 with a
-- profile that a GET then returns, that shows every value that was given, and that has the KYC
-- status it had; the session stays valid.
pub update_my_profile-shown :
    (c : Caller) (today : ℕ) (payload : ProfilePayload) (s : Session) {x : ProfilePatch}
    → IsValid s
    → load_profile_patch today payload ≡ some x
    → let (r, after) = serve (update_my_profile c today payload) s in
      (q : UserProfile) × (r ≡ respond 200 (Body.profile_updated q))
      × ((serve (get_my_profile c) after).0 ≡ respond 200 (Body.profile q))
      × ShowsPatch x q
      × (q.kyc_status ≡ (own_profile c.user_id s).kyc_status)
      × IsValid after
unfolding update_my_profile
update_my_profile-shown c today payload s {x} v loaded =
    let fits = load-fits today payload {x = x} loaded in
    let u = rewritten c x s v fits in
    let vu = rewritten-IsValid c x s v fits in
    (
      new_profile c x s v fits,
      rw (loaded, write_profile-rewritten c x s v fits),
      rw (loaded, write_profile-rewritten c x s v fits, (get_my_profile-shown c u vu).0)
          (ap (λ p. respond 200 (Body.profile p))
            (ensured-own c.user_id u (rewritten-found c x s v fits))),
      apply_patch-ShowsPatch x (with_own c.user_id s).now (own_profile c.user_id s),
      apply_patch-kyc x (with_own c.user_id s).now (own_profile c.user_id s),
      rw (loaded, write_profile-rewritten c x s v fits) vu,
    )

find-append_old :
    (j : ℕ) (rows : List UserProfile) (p : UserProfile) {q : UserProfile}
    → find_profile j rows ≡ some q
    → find_profile j (rows ++ p ∷ []) ≡ some q
find-append_old j [] p {q} h = ground (arith, h)
find-append_old j (r ∷ rows) p {q} h = ground (arith, find-append_old j rows p {q = q})

-- What a request on a profile leaves of the profile of user `j`.
abbrev Kept : Caller → ℕ → UserProfile → Session → Type 0
Kept c j p t =
    (q : UserProfile) × (find_profile j t.committed.user_profiles ≡ some q)
    × (q.kyc_status ≡ p.kyc_status)
    × (j ≢ c.user_id → q ≡ p)

module _ (c : Caller) (s : Session) (v : IsValid s) (j : ℕ) {p : UserProfile}
    (found : find_profile j s.working.user_profiles ≡ some p) where
  find-ensured :
      (o : Option UserProfile)
      → find_profile j (ensured c.user_id s o).1.working.user_profiles ≡ some p
  find-ensured none = find-append_old j s.working.user_profiles _ found
  find-ensured (some q) = found

  write_profile-Kept :
      (x : ProfilePatch) (fits : patch_fits x ≡ true) → Kept c j p (rewritten c x s v fits)
  write_profile-Kept x fits =
      let old = find-ensured (find_profile c.user_id s.working.user_profiles) in
      elim (Bool-cases (j == c.user_id)) [
        | inl e ↦
            let mine : j ≡ c.user_id = ground arith in
            let same : own_profile c.user_id s ≡ p = cc mine in
            (
              new_profile c x s v fits,
              rw mine (rewritten-found c x s v fits),
              apply_patch-kyc x (with_own c.user_id s).now (own_profile c.user_id s)
                  ∙ ap (λ (z : UserProfile). z.kyc_status) same,
              λ ne. absurd (ne mine),
            )
        | inr e ↦ (
          p,
          get-modify_ne owner j c.user_id _ (with_own c.user_id s).working.user_profiles
                (own-IsEnsured c.user_id s v).found
                (apply_patch-owner x (with_own c.user_id s).now (own_profile c.user_id s)
                  ∙ key-get owner c.user_id (with_own c.user_id s).working.user_profiles
                      (own-IsEnsured c.user_id s v).found)
                (λ h. ground arith)
              ∙ old,
          refl,
          λ ne. refl,
        )
      ]

  update_loaded-Kept :
      (today : ℕ) (payload : ProfilePayload) (o : Option ProfilePatch)
      → load_profile_patch today payload ≡ o
      → Kept c j p (serve (update_loaded c o) s).1
  update_loaded-Kept today payload none h = (p, rw (← v.clean) found, refl, λ ne. refl)
  update_loaded-Kept today payload (some x) h =
      let fits = load-fits today payload {x = x} h in
      rw (write_profile-rewritten c x s v fits) (write_profile-Kept x fits)

-- In a valid session a caller's change of the profile, whatever it is answered, leaves every
-- stored profile's KYC status as it was, and every other user's profile as a whole.
pub update_my_profile-keeps_kyc :
    (c : Caller) (today : ℕ) (payload : ProfilePayload) (s : Session) (j : ℕ) {p : UserProfile}
    → IsValid s
    → find_profile j s.working.user_profiles ≡ some p
    → (q : UserProfile) × (find_profile j
          (serve (update_my_profile c today payload) s).1.committed.user_profiles
        ≡ some q)
      × (q.kyc_status ≡ p.kyc_status)
      × (j ≢ c.user_id → q ≡ p)
unfolding update_my_profile
update_my_profile-keeps_kyc c today payload s j {p} v found =
    update_loaded-Kept c s v j found today payload (load_profile_patch today payload) refl
