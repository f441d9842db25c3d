-- ===== src/Examples/Logins.antt =====
-- A login at the small bank.
use bank_flow_digital_bankin.Base.{true, ◌≡◌, ◌++◌, [], ◌∷◌, refl, str_eq}
use bank_flow_digital_bankin.Audit.{AuditEvent, audit_entry}
use bank_flow_digital_bankin.Invariant.{IsValid}
use bank_flow_digital_bankin.Examples.{bank, bank-IsValid}
use bank_flow_digital_bankin.Auth.{Libraries, authenticate_user}
use bank_flow_digital_bankin.Auth.Clean.{strip, lower}
use bank_flow_digital_bankin.Auth.Login.{Checked, Recorded, authenticate_user-audited}

cleaned : lower (strip "  Alice@Example.com ") ≡ "alice@example.com"
unfolding strip lower
cleaned = refl

-- Libraries that take the password "secret" for every hash.
abbrev libraries : Libraries
libraries = record {
  generate_password_hash = λ p. p;
  check_password_hash = λ h p. str_eq p "secret";
  create_access_token = λ u. u.email;
  is_email = λ e. true;
}

authenticate_user-audited_example :
    let (x, t) = authenticate_user libraries " Alice@example.com" "secret" bank in
    Checked libraries " Alice@example.com" "secret" bank x
    × IsValid t
    × ((e : AuditEvent) × Recorded " Alice@example.com" x e
        × (t.committed ≡ record (bank.committed) {
          audit_logs = bank.committed.audit_logs ++ audit_entry e bank ∷ [];
        }))
authenticate_user-audited_example =
    authenticate_user-audited libraries " Alice@example.com" "secret" bank bank-IsValid refl
