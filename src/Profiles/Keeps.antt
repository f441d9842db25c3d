-- ===== src/Profiles/Keeps.antt =====
-- app/routes/profile_routes.py: `_get_or_create_profile` and `get_my_profile` in closed form.
use bank_flow_digital_bankin.Base.{
  ℕ, ◌+◌, Option, none, some, true, List, [], ◌∷◌, ◌++◌, ◌≡◌, refl, arith, all, all-append_one,
}
use bank_flow_digital_bankin.Models.{UserProfile}
use bank_flow_digital_bankin.Database.{
  Session, ok, violation, flush, commit, profile_fits, unique_numbers,
}
use bank_flow_digital_bankin.Database.Sound.{IsSound, no_violation, sound}
use bank_flow_digital_bankin.Database.Numbers.{unique_numbers-append, number_free-get}
use bank_flow_digital_bankin.Invariant.{IsStored, IsStored-beside, IsValid, seen}
use bank_flow_digital_bankin.Http.{Caller, Body, respond}
use bank_flow_digital_bankin.Profiles.{
  or_create, find_profile, blank_profile, with_profiles, get_or_create_profile, get_my_profile,
}

abbrev pub owner : UserProfile → ℕ
owner p = p.user_id

-- Sound tables with other profiles.
pub with_profiles_sound :
    (s : Session) (rows : List UserProfile)
    → IsSound s.working
    → all profile_fits rows ≡ true
    → unique_numbers owner rows ≡ true
    → violation (with_profiles rows s).working ≡ none
with_profiles_sound s rows h f u = no_violation (with_profiles rows s).working (record {
  accounts_ok = h.accounts_ok;
  accounts_fit = h.accounts_fit;
  transactions_ok = h.transactions_ok;
  transactions_fit = h.transactions_fit;
  entries_ok = h.entries_ok;
  entries_fit = h.entries_fit;
  records_fit = h.records_fit;
  keys_unique = h.keys_unique;
  numbers_unique = h.numbers_unique;
  emails_unique = h.emails_unique;
  records_unique = h.records_unique;
  profiles_fit = f;
  profiles_unique = u;
  configs_fit = h.configs_fit;
  users_fit = h.users_fit;
  logs_fit = h.logs_fit;
})

-- The profile that a request works on, and the session in which it is stored.
abbrev pub ensured : ℕ → Session → Option UserProfile → UserProfile × Session
ensured k s (some p) = (p, s)
ensured k s none = (
  blank_profile k s,
  record (with_profiles (s.working.user_profiles ++ blank_profile k s ∷ []) s) {
    ids = record (s.ids) { profile = s.ids.profile + 1 };
  },
)

abbrev pub own_profile : ℕ → Session → UserProfile
own_profile k s = (ensured k s (find_profile k s.working.user_profiles)).0

abbrev pub with_own : ℕ → Session → Session
with_own k s = (ensured k s (find_profile k s.working.user_profiles)).1

find-append_new :
    (k : ℕ) (rows : List UserProfile) (p : UserProfile)
    → find_profile k rows ≡ none
    → p.user_id ≡ k
    → find_profile k (rows ++ p ∷ []) ≡ some p
find-append_new k [] p h e = ground arith
find-append_new k (q ∷ rows) p h e = ground (arith, find-append_new k rows p)

-- What holds of the session with the profile.
pub record IsEnsured (k : ℕ) (s : Session) (x : UserProfile × Session) : Type 0 where
  pub sound_tables : violation x.1.working ≡ none
  pub found : find_profile k x.1.working.user_profiles ≡ some x.0
  pub transactions : x.1.working.transactions ≡ s.working.transactions
  pub entries : x.1.working.ledger_entries ≡ s.working.ledger_entries
  pub accounts : x.1.working.accounts ≡ s.working.accounts
  pub logs : x.1.working.audit_logs ≡ s.working.audit_logs
  pub records : x.1.working.idempotency_records ≡ s.working.idempotency_records
  pub next_transaction : x.1.ids.transaction ≡ s.ids.transaction
  pub next_account : x.1.ids.account ≡ s.ids.account

module _ (k : ℕ) (s : Session) (v : IsValid s) where
  ensured-IsEnsured :
      (o : Option UserProfile)
      → find_profile k s.working.user_profiles ≡ o
      → IsEnsured k s (ensured k s o)
  ensured-IsEnsured (some p) e = record {
    sound_tables = (seen v).sound;
    found = e;
    transactions = refl;
    entries = refl;
    accounts = refl;
    logs = refl;
    records = refl;
    next_transaction = refl;
    next_account = refl;
  }
  ensured-IsEnsured none e =
      let h = sound s.working (seen v).sound in
      record {
        sound_tables =
            with_profiles_sound s (s.working.user_profiles ++ blank_profile k s ∷ []) h
              (all-append_one profile_fits s.working.user_profiles (blank_profile k s)
                h.profiles_fit refl)
              (unique_numbers-append owner s.working.user_profiles (blank_profile k s)
                h.profiles_unique (number_free-get owner k s.working.user_profiles e));
        found = find-append_new k s.working.user_profiles (blank_profile k s) e refl;
        transactions = refl;
        entries = refl;
        accounts = refl;
        logs = refl;
        records = refl;
        next_transaction = refl;
        next_account = refl;
      }

  pub own-IsEnsured : IsEnsured k s (own_profile k s, with_own k s)
  own-IsEnsured = ensured-IsEnsured (find_profile k s.working.user_profiles) refl

  or_create-ensured :
      (o : Option UserProfile)
      → find_profile k s.working.user_profiles ≡ o
      → or_create k o s ≡ (ok (ensured k s o).0, (ensured k s o).1)
  or_create-ensured (some p) e = refl
  or_create-ensured none e = rw ((ensured-IsEnsured none e).sound_tables, flush)

  pub get_or_create-own : get_or_create_profile k s ≡ (ok (own_profile k s), with_own k s)
  unfolding get_or_create_profile
  get_or_create-own = or_create-ensured (find_profile k s.working.user_profiles) refl

  ensured-IsStored : IsStored (with_own k s).ids (with_own k s).working
  ensured-IsStored =
      IsStored-beside (omega (arith, own-IsEnsured.next_transaction))
        (omega (arith, own-IsEnsured.next_account)) (seen v) own-IsEnsured.sound_tables
        own-IsEnsured.transactions own-IsEnsured.entries own-IsEnsured.accounts
        own-IsEnsured.records

-- The session after a first look at one's profile.
abbrev pub shown : ℕ → Session → Session
shown k s = record (with_own k s) { committed = (with_own k s).working }

pub get_my_profile-shown :
    (c : Caller) (s : Session)
    → IsValid s
    → (get_my_profile c s
        ≡ (ok (respond 200 (Body.profile (own_profile c.user_id s))), shown c.user_id s))
      × IsValid (shown c.user_id s)
unfolding get_my_profile
get_my_profile-shown c s v = (
  rw (get_or_create-own c.user_id s v, (own-IsEnsured c.user_id s v).sound_tables, commit),
  record { clean = refl; stored = ensured-IsStored c.user_id s v },
)
