-- ===== src/Lib.antt =====
-- BankFlow: accounts, transfers and their audit over one SQL database, served by Flask routes.
--
-- The program keeps users, accounts, transactions, a general ledger, an audit trail and the
-- responses it may replay in tables. A request works in one database session: it reads rows, writes
-- rows, flushes, and commits or is rolled back. The routes check who calls, the services do the
-- work; a transfer or a deposit writes balances and ledger entries in one commit.
--
-- Which module models what, by the paths of the repository:
--   Base            numbers, texts, lists, keyed rows: helpers; Decimal: the amounts of requests and
--                   their rounding in the columns of app/models/domain.py
--   Models          app/models: a record for each table, a data type for each enumeration
--   Database        the tables, their constraints, the session, and its error monad (`Action`)
--   Audit           app/services/audit_service.py, record_audit_event
--   Ledger          the LedgerEntry rows that the services and routes write
--   Http            responses, the caller, and the end of a request (app/__init__.py)
--   Reconcile       app/services/reconciliation_service.py; its proofs in Sums, Pairs, Healthy
--   Invariant       the well-formed sessions (`IsValid`), the conditions of the theorems
--   Transfer        app/services/transfer_service.py, execute_transfer; one child for each kind of
--                   property
--   Locking         the row locks of transfers that run at once, as a step relation
--   Listing         the order and the pages of the listings
--   Accounts        app/routes/account_routes.py with its schemas and account numbers: Payload,
--                   Idempotency, Numbers, Deposit, Create, Views, Admin
--   TransferRoutes  app/routes/transfer_routes.py with app/schemas/transfer_schema.py
--   Statements      app/services/statement_service.py: the access checks and the CSV rows, Rows,
--                   Pdf, Agree
--   StatementRoutes app/routes/statement_routes.py: Dates, LastDay, Owners
--   Auth            app/services/auth_service.py, and app/routes/auth_routes.py with its schemas:
--                   Clean, Login, Routes; Demo is ensure_demo_accounts
--   Configuration   app/core/config.py and app/db.py: Texts, Urls
--   Profiles        app/routes/profile_routes.py and app/models/profile.py: Payload, Fits, Keeps,
--                   Shows, Own
--   Branding        app/routes/config_routes.py and app/models/branding.py: Payload, Update,
--                   Shows, TooLong
--   Notifications   app/services/notification_service.py
--   Middleware      app/__init__.py: the request id, the headers, the answers that no route gives
--   Seed            seed.py
--   System          the routes that app/__init__.py registers as one system: Beside, Registers, Keeps,
--                   Drift, Money, Openings, Steady, Balance, Explained,
--                   Statuses, Secrets, Access
--   Examples        a small bank on which the theorems are run
--
-- A handler is a function from the session to a result and a session; a Python exception is an
-- error value, and what was written before it stays written until a handler rolls back. Code after
-- a guard is a helper that takes the row or the payload that the guard has found. Functions keep
-- the names of the source where they are whole functions of it.
--
-- How the data is read:
--   - a stored amount is a whole number of cents (`Numeric(12, 2)`), the amount of a request a decimal of
--     any precision (Base.Decimal), which each column rounds to cents, half away from zero; the values
--     that code writes are given as their columns take them, and the precision of 28 digits of
--     Python's decimals is not modelled; a key or a time is a number from zero,
--     a time the seconds from the first day of the calendar where a date is read;
--   - CHECK and UNIQUE constraints and the limits of columns are checked at a flush, as MySQL does in
--     strict mode; a balance has at most twelve digits, a key at most 128 characters,
--     the texts of profiles and settings the lengths of their columns, a user's name and
--     address 120 characters, and the address and the id of a request in the audit trail 64; the
--     lengths of password hashes and account numbers, which the code makes itself, and foreign keys
--     are not checked;
--   - texts are compared exactly, a collation that ignores case is not modelled, and `strip` and
--     `lower` are those of ASCII texts;
--   - Flask-Bcrypt, Flask-JWT-Extended and marshmallow's test of an address are the fields of the
--     record `Libraries`, and the random digits of account numbers a function of the attempt;
--   - a JSON text is the value that it stands for, and a payload is its fields as the schema reads
--     them, absent and malformed ones included;
--   - the role of a caller is the claim of the token, as in the code;
--   - rows found by their keys are the first in the order of insertion, and keys grow;
--   - a lock is granted when no other transfer holds the row; waiting for other statements, missing
--     rows and timeouts are left out; the notification of a transfer cannot fail.
-- All functions are total by structure. The retries of an account number are bounded by the five of
-- the code; the climb through waiting transfers in Locking takes the largest id as its fuel, which
-- is enough because each wait leads to a greater id.
--
-- Not modelled: the to_dict methods, whose texts of numbers and dates are the standard library's;
-- the layout of PDF files and the text of CSV files, which are output; the
-- set-up of the libraries and the counting of the rate limits; the frontend in JavaScript and
-- the tests.
pub mod Base
pub mod Models
pub mod Database
pub mod Audit
pub mod Ledger
pub mod Http
pub mod Reconcile
pub mod Invariant
pub mod Transfer
pub mod Locking
pub mod Listing
pub mod Accounts
pub mod TransferRoutes
pub mod Statements
pub mod Auth
pub mod Profiles
pub mod Branding
pub mod StatementRoutes
pub mod Configuration
pub mod Notifications
pub mod Middleware
pub mod Seed
pub mod System
mod Examples
