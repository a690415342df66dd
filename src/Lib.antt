-- ===== src/Lib.antt =====
-- The verification library of ullav-user-management, the user, team and OAuth2 server.
--
-- The server keeps its state in PostgreSQL: handlers (src/handlers) check a request and call the
-- functions of src/db, which run SQL. The model has a record for each group of tables, a row for each
-- record, and the functions and handlers as actions on it (Exec.antt): an action takes the tables
-- and returns a result or an AppError (Errors.antt) and the tables after it. What a statement wrote
-- stays written when a later one fails, unless both are in one transaction, which restores the tables.
-- Constraints of the migrations are part of the statements that they guard, and ON DELETE CASCADE is
-- a function of its own (Teams.cascade). UUIDs are numbers, new ones come from a counter; times are
-- numbers of seconds, and the clock is an argument. Random tokens, cryptography, Unicode's lower case
-- and, outside of Users and Billing, the users' table are arguments. Concurrent requests are taken one after another.
--
-- Parts and files:
--   Prelude           shared names: Boolean tests, lists as tables, texts as lists of code points.
--   Errors, Exec      src/errors.rs; actions on a store, and what they keep (Exec/Keeps.antt).
--   Accounts          the user rows and claims that other parts read (src/db/mod.rs,
--                     src/middleware/auth.rs).
--   Words, Checks     Rust's str::trim and split_whitespace; the stand-alone checks of
--                     src/utils, src/models/mod.rs, src/handlers/pat.rs and src/handlers/teams.rs.
--   Slug              slugify, validate_slug_format and the loops for unique slugs of src/db/mod.rs.
--                     The loops run on fuel: one round for each row and one more is enough.
--   RateLimit         src/utils/rate_limit.rs, against the list of all accepted requests.
--   Keys              the signing keys: src/db/oauth2.rs, src/utils/key_store.rs, src/utils/rs256.rs
--                     and the key handlers of src/handlers/admin.rs (Keys/Handlers.antt), with
--                     the agreement of memory and table (Keys/Invariant.antt) and restarts
--                     (Keys/Restart.antt).
--   Oauth             authorization codes, refresh tokens and sessions of src/db/oauth2.rs, its
--                     clients (Oauth/Clients.antt), and of src/handlers/oauth2.rs the grants for codes
--                     (Oauth/Grants.antt), for client credentials (Oauth/Service.antt) and for refresh
--                     tokens, with the revocation (Oauth/Refresh.antt), the checks of an authorization
--                     request (Oauth/Authorize.antt) and the messages (Oauth/Denials.antt): replay of
--                     codes (Oauth/Replay.antt) and of refresh tokens (Oauth/Rotation.antt), scopes
--                     (Oauth/Scopes.antt) and redirect URIs (Oauth/Redirects.antt).
--   Pat               personal access tokens: src/db/pat.rs (Pat.antt) and src/handlers/pat.rs
--                     (Pat/Handlers.antt), with their hashes (Pat/Hashes.antt), what all requests keep
--                     (Pat/Kept.antt), rows that stay (Pat/Lasting.antt), revocation (Pat/Revoked.antt) and tokens for one run
--                     (Pat/Minted.antt, Pat/Exchange.antt).
--   Teams             the tables of the migrations 012 to 032 (Teams.antt) and their functions in
--                     src/db/mod.rs (Teams/Store.antt, Teams/Members.antt, Teams/Roles.antt,
--                     Teams/Support.antt, Teams/Removal.antt for the deletion of a user), the
--                     handlers of src/handlers/teams.rs (Teams/Handlers.antt) and
--                     src/handlers/admin.rs (Teams/Admin.antt), the requests that change these
--                     tables as one type (Teams/Requests.antt), the invariant of the "All" role (Teams/Sync.antt and
--                     below), rights (Teams/Rights.antt), cascades (Teams/Revocation.antt) and the
--                     flag of Support teams (Teams/SupportFlag.antt).
--   Teams/Organizations
--                     organizations of src/db/mod.rs and src/handlers/admin.rs, and the team that
--                     every Clann user gets (Teams/Organizations/Clann.antt).
--   Billing           subscriptions: the table of migration 006 with its constraints (Billing.antt),
--                     the functions of src/db/mod.rs (Billing/Store.antt), what comes from outside
--                     (Billing/Providers.antt), src/payments/stripe.rs (Billing/Stripe.antt and
--                     below), src/payments/paypal.rs (Billing/Paypal.antt and below), their common
--                     end (Billing/Provision.antt), src/handlers/subscriptions.rs
--                     (Billing/Handlers.antt), the webhooks and the administrators' requests
--                     (Billing/Requests.antt); the constraints (Billing/Sound.antt), repeated delivery
--                     (Billing/Retry.antt and below), Billing/Signature.antt, Billing/Metadata.antt,
--                     Billing/Cancellation.antt.
--   Users             accounts: the tables of the migrations 001 to 003 (Users.antt), src/db/mod.rs
--                     (Users/Store.antt, Users/Roles.antt), src/handlers/auth.rs (Users/Auth.antt),
--                     src/handlers/users.rs, src/handlers/profile.rs and src/handlers/admin.rs
--                     (Users/Handlers.antt); resets (Users/Reset.antt), changes of a password
--                     (Users/Rights.antt), confirmations (Users/Confirm.antt). A call into another
--                     part runs on that part's tables.
--
-- A handler takes what it reads of the request: the claims, the path and the fields of the body; a
-- response body that is only read back from the tables is left out, and so are e-mails and log lines.
--
-- Not modelled: the OAuth2 authorization pages and the registration of clients, the handlers of
-- service clients, SSH keys, the making
-- of identity tokens, plans, the deletion of a user outside of the tables of teams, the network middleware, read-only listings, and
-- start-up; main.rs, the configuration and e-mail texts are I/O. JSON values, HMAC, Argon2, UUID texts,
-- times and the answers of Stripe and PayPal are parameters.
mod Prelude
pub mod Errors
pub mod Exec
pub mod Accounts
pub mod Words
pub mod Checks
pub mod Slug
pub mod RateLimit
pub mod Keys
pub mod Oauth
pub mod Pat
pub mod Teams
pub mod Billing
pub mod Users
