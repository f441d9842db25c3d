-- ===== src/System/Secrets.antt =====
-- app/routes and app/services: code that does not read the password hashes of `users`. `hide` blanks them;
-- code is blind if it does on the blanked tables what it does on the tables, but for the hashes.
pub mod Handlers
pub mod Transfers
pub mod Others
pub mod Settings
pub mod Unseen
use bank_flow_digital_bankin.Base.{
  all, ℕ, String, Option, none, some, Bool, List, [], ◌∷◌, ◌≡◌, refl, ◌||◌, any, str_eq,
  Option-cases, inl, inr, arith, ◌==◌, Bool-cases,
}
use bank_flow_digital_bankin.Models.{User}
use bank_flow_digital_bankin.Database.{
  user_fits, Db, Session, Action, Result, ok, err, violation, integrity_ok, data_ok, text_key_free,
  unique_texts, flush, commit, gets, modify_session, after_result, ◌>>=◌, get_user, modify_user,
}
use bank_flow_digital_bankin.Http.{Body, Response, respond, serve, finish}

abbrev pub hide_user : User → User
hide_user u = record u { password_hash = "" }

abbrev pub hide_found : Option User → Option User
hide_found none = none
hide_found (some u) = some (hide_user u)

abbrev pub hide_users : List User → List User
hide_users [] = []
hide_users (u ∷ users) = hide_user u ∷ hide_users users

abbrev pub hide_db : Db → Db
hide_db d = record d { users = hide_users d.users }

abbrev pub hide : Session → Session
hide s = record s { committed = hide_db s.committed; working = hide_db s.working }

-- The rows of users in a response, which `to_dict` turns into JSON.
abbrev pub hide_body : Body → Body
hide_body (Body.role_updated u) = Body.role_updated (hide_user u)
hide_body (Body.authenticated u token) = Body.authenticated (hide_user u) token
hide_body (Body.registered u a token) = Body.registered (hide_user u) a token
hide_body (Body.user_with_accounts u rows) = Body.user_with_accounts (hide_user u) rows
hide_body b = b

abbrev pub hide_response : Response → Response
hide_response r = respond r.status (hide_body r.body)

abbrev pub hide_result : Result Response → Result Response
hide_result (ok r) = ok (hide_response r)
hide_result (err e) = err e

module _ (k : String) where
  any_email-hide :
      (users : List User)
      → any (λ (u : User). str_eq k u.email) (hide_users users)
        ≡ any (λ (u : User). str_eq k u.email) users
  any_email-hide [] = refl
  any_email-hide (u ∷ users) = rw (any_email-hide users) refl

emails-hide :
    (users : List User)
    → unique_texts (λ (u : User). u.email) (hide_users users)
      ≡ unique_texts (λ (u : User). u.email) users
unfolding text_key_free
emails-hide [] = refl
emails-hide (u ∷ users) = rw (any_email-hide u.email users, emails-hide users) refl

users_fit-hide : (users : List User) → all user_fits (hide_users users) ≡ all user_fits users
users_fit-hide [] = refl
users_fit-hide (u ∷ users) = rw (users_fit-hide users) refl

-- No check of the database reads a hash.
pub violation-hide : (d : Db) → violation (hide_db d) ≡ violation d
unfolding violation integrity_ok data_ok
violation-hide d = rw (emails-hide d.users, users_fit-hide d.users) refl

pub get_user-hide :
    (k : ℕ) (users : List User) → get_user k (hide_users users) ≡ hide_found (get_user k users)
get_user-hide k [] = refl
get_user-hide k (u ∷ users) = ground (arith, get_user-hide k users)

pub modify_user-hide :
    (k : ℕ) (f : User → User) (users : List User)
    → ((u : User) → f (hide_user u) ≡ hide_user (f u))
    → modify_user k f (hide_users users) ≡ hide_users (modify_user k f users)
modify_user-hide k f [] h = refl
modify_user-hide k f (u ∷ users) h = elim (Bool-cases (k == u.user_id)) [
  | inl y ↦ rw (y, h u) refl
  | inr n ↦ rw (n, modify_user-hide k f users h) refl
]

pub record Blind {A : Type 0} (m : Action A) : Type 0 where
  pub blind : (s : Session) → m (hide s) ≡ ((m s).0, hide (m s).1)

pub record BlindTo (m : Action Response) : Type 0 where
  pub blind : (s : Session) → m (hide s) ≡ (hide_result (m s).0, hide (m s).1)

pub commit-Blind : Blind commit
commit-Blind = record {
  blind = λ s. elim (Option-cases (violation s.working)) [
    | inl q ↦ rw (commit, violation-hide s.working, q) refl
    | inr (v, q) ↦ rw (commit, violation-hide s.working, q) refl
  ];
}

pub flush-Blind : Blind flush
flush-Blind = record {
  blind = λ s. elim (Option-cases (violation s.working)) [
    | inl q ↦ rw (flush, violation-hide s.working, q) refl
    | inr (v, q) ↦ rw (flush, violation-hide s.working, q) refl
  ];
}

pub bind-Blind :
    {A B : Type 0} (m : Action A) (f : A → Action B)
    → Blind m
    → ((a : A) → Blind (f a))
    → Blind (m >>= f)
bind-Blind {A} {B} m f h g = record { blind = λ s. rw (h.blind s) (go (m s).0 (m s).1) }
  where
    go :
        (r : Result A) (t : Session)
        → after_result r f (hide t) ≡ ((after_result r f t).0, hide (after_result r f t).1)
    go (ok a) t = (g a).blind t
    go (err e) t = refl

pub bind-BlindTo :
    {A : Type 0} (m : Action A) (f : A → Action Response)
    → Blind m
    → ((a : A) → BlindTo (f a))
    → BlindTo (m >>= f)
bind-BlindTo {A} m f h g = record { blind = λ s. rw (h.blind s) (go (m s).0 (m s).1) }
  where
    go :
        (r : Result A) (t : Session)
        → after_result r f (hide t)
          ≡ (hide_result (after_result r f t).0, hide (after_result r f t).1)
    go (ok a) t = (g a).blind t
    go (err e) t = refl

pub modify-Blind :
    (f : Session → Session) → ((s : Session) → f (hide s) ≡ hide (f s)) → Blind (modify_session f)
modify-Blind f h = record { blind = λ s. rw (h s) refl }

pub gets-Blind :
    {A : Type 0} (f : Session → A) → ((s : Session) → f (hide s) ≡ f s) → Blind (gets f)
gets-Blind f h = record { blind = λ s. rw (h s) refl }

pub serve-hide :
    (m : Action Response) (s : Session)
    → m (hide s) ≡ (hide_result (m s).0, hide (m s).1)
    → serve m (hide s) ≡ (hide_response (serve m s).0, hide (serve m s).1)
serve-hide m s h = rw h (go (m s).0 (m s).1)
  where
    go :
        (r : Result Response) (t : Session)
        → finish (hide_result r) (hide t) ≡ (hide_response (finish r t).0, hide (finish r t).1)
    go (ok r) t = refl
    go (err e) t = refl
