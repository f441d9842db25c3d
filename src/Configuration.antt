-- ===== src/Configuration.antt =====
-- app/core/config.py and app/db.py: the URL of the database, which must name MySQL, and the options of the
-- engine. `strip` and `lower` are those of ASCII texts.
pub mod Texts
pub mod Urls
use bank_flow_digital_bankin.Base.{
  ℕ, String, Option, none, some, Bool, true, not, ◌&&◌, ◌||◌, List, [], ◌∷◌, map, keep,
  if◌then◌else◌,
}
use bank_flow_digital_bankin.Auth.Clean.{strip, lower}
use bank_flow_digital_bankin.Configuration.Texts.{
  starts_with, after_prefix, concat, contains, contains_any, before, split, is_empty,
}
use bank_flow_digital_bankin.Branding.Payload.{Environment}

-- The four RuntimeErrors.
pub data UrlError : Type 0 where
  not_set sqlite_disallowed postgres_detected unsupported_dialect : UrlError

pub data Validated : Type 0 where
  valid : (database_url : String) → Validated
  fatal : UrlError → Validated

-- `if url.startswith("mysql://"): url = url.replace("mysql://", "mysql+pymysql://", 1)`
abbrev pub with_driver : String → String
with_driver url =
    if starts_with "mysql://" url
    then concat "mysql+pymysql://" (after_prefix "mysql://" url)
    else url

abbrev pub is_postgres : String → Bool
is_postgres s =
    starts_with "postgres://" s
    || (starts_with "postgresql://" s || starts_with "postgresql+psycopg2://" s)

abbrev pub is_mysql : String → Bool
is_mysql s =
    starts_with "mysql://" s
    || (starts_with "mysql+pymysql://" s || starts_with "mysql+mysqldb://" s)

-- The tests of `cleaned`.
abbrev pub judge : String → Option UrlError
judge cleaned =
    if starts_with "sqlite" cleaned
    then some UrlError.sqlite_disallowed
    else if is_postgres cleaned
    then some UrlError.postgres_detected
    else if not (is_mysql cleaned)
    then some UrlError.unsupported_dialect
    else none

abbrev pub judged : String → Option UrlError → Validated
judged url (some e) = fatal e
judged url none = valid (with_driver url)

unfoldable pub validate_mysql_url : String → Validated
unfolding strip lower
validate_mysql_url url =
    if is_empty url then fatal UrlError.not_set else judged url (judge (lower (strip url)))

pub record EngineOptions : Type 0 where
  pub pool_size : ℕ
  pub max_overflow : ℕ
  pub pool_timeout : ℕ
  pub pool_recycle : ℕ
  pub pool_pre_ping : Bool
  pub ssl : Bool

abbrev pub needs_ssl : String → Bool
needs_ssl url =
    contains_any ("aivencloud.com" ∷ "tidb" ∷ "ssl" ∷ "aws" ∷ "railway" ∷ []) (lower url)

abbrev pub is_local : String → Bool
is_local url = contains "localhost" url || contains "127.0.0.1" url

-- `os.getenv(env_var, default)`
abbrev pub or_default : Option String → String → String
or_default none default = default
or_default (some t) default = t

unfoldable pub build_db_config : Environment → (env_var default : String) → String × EngineOptions
unfolding lower
build_db_config env env_var default =
    let raw_db_url = with_driver (or_default (env env_var) default) in
    let clean_db_url = before b'?' raw_db_url in
    (
      clean_db_url,
      record {
        pool_size = 20;
        max_overflow = 10;
        pool_timeout = 30;
        pool_recycle = 1800;
        pool_pre_ping = true;
        ssl = needs_ssl raw_db_url && not (is_local clean_db_url);
      },
    )

-- `CORS_ORIGINS`
unfoldable pub cors_origins : Option String → List String
unfolding strip
cors_origins setting =
    keep (λ (o : String). not (is_empty o))
      (map strip (
        split b','
          (or_default setting "http://localhost:5173,http://localhost:3000,http://127.0.0.1:5173")))
