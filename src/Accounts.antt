-- ===== src/Accounts.antt =====
-- app/routes/account_routes.py: opening accounts, deposits and the administration of accounts and roles,
-- with the replay of stored responses; the parts of app/schemas and app/services that they call.
pub mod Payload
pub mod Idempotency
pub mod Numbers
pub mod Deposit
pub mod Create
pub mod Views
pub mod Admin
