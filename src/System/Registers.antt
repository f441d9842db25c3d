-- ===== src/System/Registers.antt =====
-- app/services/auth_service.py, `register_user`, and app/routes/auth_routes.py: the invariant under a
-- registration.
use bank_flow_digital_bankin.Base.{
  ℕ, ◌+◌, String, Option, none, some, [], ◌∷◌, ◌++◌, ◌≡◌, refl, arith, Option-cases, inl, inr,
}
use bank_flow_digital_bankin.Base.Rows.{Below-append, Below-mono}
use bank_flow_digital_bankin.Base.Decimal.{Decimal}
use bank_flow_digital_bankin.Models.{User, UserRole, Account, customer}
use bank_flow_digital_bankin.Database.{Session, violation, commit, flush, find_email}
use bank_flow_digital_bankin.Audit.{add_log, record_audit_event}
use bank_flow_digital_bankin.Http.{serve}
use bank_flow_digital_bankin.Invariant.{IsStored, IsStored-mono, IsValid, seen}
use bank_flow_digital_bankin.Invariant.Ends.{
  Ends, bind-Ends, commit-Ends, commit_beside-Ends, serve_stored-IsValid, Ends-IsStored,
}
use bank_flow_digital_bankin.Accounts.Numbers.{generate_account_number, max_acct_retries}
use bank_flow_digital_bankin.Auth.{
  Libraries, new_user, primary_account, provision, register_new, register_user,
}
use bank_flow_digital_bankin.Auth.Clean.{strip, lower}
use bank_flow_digital_bankin.Auth.Routes.{
  Registration, RegisterPayload, load_registration, register_loaded, register,
}

module _ (lib : Libraries) (s : Session) (v : IsValid s) where
  module _ (full_name email password : String) (deposit : Decimal) (role : UserRole) where
    abbrev pub u : User
    u = new_user lib full_name email password role s

    abbrev pub added : Session
    added = record s {
      working = record (s.working) { users = s.working.users ++ u ∷ [] };
      ids = record (s.ids) { user = s.ids.user + 1 };
    }

    abbrev pub a : String → Account
    a number = primary_account lib u number deposit added

    abbrev pub opened : String → Session
    opened number = record added {
      working = record (added.working) { accounts = s.working.accounts ++ a number ∷ [] };
      ids = record (added.ids) { account = s.ids.account + 1 };
    }

    opened-IsStored :
        (number : String)
        → violation (opened number).working ≡ none
        → IsStored (opened number).ids (opened number).working
    opened-IsStored number q =
        let w = seen v in
        record {
          sound = q;
          transactions_below = w.transactions_below;
          links_below = w.links_below;
          records_answer = w.records_answer;
          paired = w.paired;
          accounts_below =
              Below-append (λ (b : Account). b.account_id) (s.ids.account + 1) s.working.accounts
                (a number)
                (Below-mono (λ (b : Account). b.account_id) s.ids.account (s.ids.account + 1)
                  s.working.accounts (omega arith) w.accounts_below)
                (omega arith);
        }

    provision-Ends : (o : Option (String × ℕ)) → Ends (provision lib u deposit o added)
    unfolding record_audit_event add_log
    provision-Ends none = IsStored-mono (omega arith) (omega arith) v.stored
    provision-Ends (some (number, i)) =
        bind-Ends _
          (λ _ t w.
            bind-Ends _ (λ _ t' w'. w') commit _
              (commit_beside-Ends t _ w refl (omega arith) (omega arith) refl refl refl refl))
          commit (opened number)
          (commit-Ends (opened number) (IsStored-mono (omega arith) (omega arith) v.stored)
            (opened-IsStored number))

    pub register_new-Ends :
        (draw : ℕ → String) (o : Option User)
        → Ends (register_new lib draw full_name email password deposit role o s)
    register_new-Ends draw (some x) = v.stored
    register_new-Ends draw none = elim (Option-cases (violation added.working)) [
      | inr (f, q) ↦ rw (q, flush) (IsStored-mono (omega arith) (omega arith) v.stored)
      | inl q ↦
          rw (q, flush)
            (provision-Ends (generate_account_number draw max_acct_retries 0 s.working.accounts))
    ]

  register_loaded-IsStored :
      (draw : ℕ → String) (o : Option Registration)
      → IsStored (register_loaded lib draw o s).1.ids (register_loaded lib draw o s).1.committed
  unfolding register_user
  register_loaded-IsStored draw none = v.stored
  register_loaded-IsStored draw (some r) =
      let email = lower (strip r.email) in
      let m = register_user lib draw r.full_name r.email r.password r.initial_deposit customer s in
      Ends-IsStored m.0 m.1 (
        register_new-Ends r.full_name email r.password r.initial_deposit customer draw
          (find_email email s.working.users))

  pub register-IsValid :
      (draw : ℕ → String) (p : RegisterPayload) → IsValid (serve (register lib draw p) s).1
  unfolding register
  register-IsValid draw p =
      serve_stored-IsValid (register_loaded lib draw (load_registration lib p)) s
        (register_loaded-IsStored draw (load_registration lib p))
