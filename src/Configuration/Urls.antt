-- ===== src/Configuration/Urls.antt =====
-- app/core/config.py and app/db.py: the URLs that the check takes, and the one that the configuration
-- hands to it.
use bank_flow_digital_bankin.Base.{
  String, Option, none, some, Bool-cases, inl, inr, true, ◌≡◌, refl, arith, sym,
}
use mathlib.Core.Path.{subst}
use bank_flow_digital_bankin.Auth.Clean.{strip, strip_end, lower}
use bank_flow_digital_bankin.Branding.Payload.{Environment}
use bank_flow_digital_bankin.Configuration.Texts.{
  starts_with, after_prefix, concat, before, is_empty,
}
use bank_flow_digital_bankin.Configuration.{
  UrlError, valid, with_driver, judge, judged, validate_mysql_url, build_db_config, or_default,
}

-- A URL with the driver passes and stays as it is.
strip-driver :
    (rest : String)
    → (t : String) × (strip (concat "mysql+pymysql://" rest) ≡ concat "mysql+pymysql://" t)
unfolding strip
strip-driver rest = go (strip_end rest) refl
  where
    go :
        (x : String)
        → strip_end rest ≡ x
        → (t : String) × (strip_end (concat "mysql+pymysql://" rest) ≡ concat "mysql+pymysql://" t)
    go String.[] e = ("", rw e refl)
    go (String.◌∷◌ c x) e = (String.◌∷◌ c x, rw e refl)

pub driver-valid :
    (rest : String)
    → validate_mysql_url (concat "mysql+pymysql://" rest) ≡ valid (concat "mysql+pymysql://" rest)
unfolding validate_mysql_url
driver-valid rest = let (t, e) = strip-driver rest in rw e refl

valid-injective : {u w : String} → valid u ≡ valid w → u ≡ w
valid-injective h = cc h

judged-valid :
    (url : String) (o : Option UrlError) {u : String} → judged url o ≡ valid u → with_driver url ≡ u
judged-valid url none h = valid-injective h
judged-valid url (some e) h = absurd (ground (arith, h))

-- What passes is returned with its driver.
validate_mysql_url-driver :
    (url : String) {u : String} → validate_mysql_url url ≡ valid u → with_driver url ≡ u
unfolding validate_mysql_url
validate_mysql_url-driver url {u} h = elim (Bool-cases (is_empty url)) [
  | inl empty ↦ absurd (ground (arith, rw empty at h))
  | inr more ↦ judged-valid url (judge (lower (strip url))) {u = u} (rw more at h)
]

pub validate_mysql_url-again :
    (url : String) {u : String} → validate_mysql_url url ≡ valid u → validate_mysql_url u ≡ valid u
validate_mysql_url-again url {u} h =
    let same = validate_mysql_url-driver url {u = u} h in
    elim (Bool-cases (starts_with "mysql://" url)) [
      | inl plain ↦ rw (sym (rw plain at same)) (driver-valid (after_prefix "mysql://" url))
      | inr other ↦ subst (λ w. validate_mysql_url w ≡ valid u) (rw other at same) h
    ]

-- A database URL that begins with mysql://, from the environment or the default, is configured to
-- one that the check of the start takes and returns unchanged.
pub build_db_config-valid :
    (env : Environment) (env_var default : String)
    → starts_with "mysql://" (or_default (env env_var) default) ≡ true
    → let (url, options) = build_db_config env env_var default in validate_mysql_url url ≡ valid url
unfolding build_db_config
build_db_config-valid env env_var default h =
    rw h (driver-valid (before b'?' (after_prefix "mysql://" (or_default (env env_var) default))))
