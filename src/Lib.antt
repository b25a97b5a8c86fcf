-- ===== src/Lib.antt =====
-- A model of the core of AuthKit, an OpenID Connect identity provider for AdonisJS: the part of
-- the package packages/authkit-server that decides who gets in. Each module is a translation of
-- the TypeScript file that its first comment names; functions keep their names in snake case.
--
--   OtpLogin        host/otp_login.ts: login by an e-mailed code. The slot of an account is text,
--                   written by encode_otp_token and read by decode_otp_token; evaluate_login_otp
--                   decides, and slot_after is what accounts/lucid_store/core.ts then stores. Each
--                   check runs in a transaction with a row lock, so checks come one after another.
--   TokenHash       accounts/lucid_store/token_hash.ts: tokens that are stored as hashes.
--   Passwords       password/policy.ts, password/password_manager.ts and password/pwned.ts.
--   Accounts        accounts/lucid_store/core.ts, over Db, OtpLogin, TokenHash and Passwords. Tokens
--                   and Emails are the flows of its two token slots.
--   Mfa             accounts/lucid_store/mfa.ts and its table in shared.ts, over Db.
--   Passkeys        accounts/lucid_store/webauthn.ts, over Db and Mfa.
--   TrustedDevice   host/trusted_device.ts, over Mfa.
--   PersonalTokens  pat/lucid_pat_store.ts and pat/pat_tokens.ts, over Db.
--   RuntimeSettings host/runtime_settings.ts, over Db, with the locks of host/config_locks.ts.
--   Orgs            accounts/lucid_store/organizations.ts: organisations, members, invitations.
--   Db              the tables that the stores stand on, an interface of Lucid's
--                   queries. Memory is an instance of lists.
--   Sudo            host/sudo_mode.ts and host/impersonation_session.ts: the confirmation of an
--                   account, and acting as another one, on the state of one session.
--   Settings        the resolvers of host/runtime_toggles.ts and host/otp_lockout.ts.
--   Limiter         @adonisjs/limiter as an interface; Works is what it does when it answers: counts
--                   that end with their window, and locks that end with their duration, as seconds
--                   pass between calls.
--   AccountLockout  host/account_lockout.ts.
--   OtpLockout      host/otp_lockout.ts.
--   AccountStatus   host/login_attempt.ts: the e-mail, password and activity checks, over Settings.
--   LoginAttempt    host/login_attempt.ts: the gates in their order, over AccountStatus and
--                   AccountLockout.
--   TokenExchange   provider/token_exchange.ts, over LoginAttempt: an admin gets a token of another
--                   account.
--   Keystore        keys/keystore.ts, keys/keystore_codec.ts and keys/keystore_manager.ts.
--   KeyRotation     provider/key_rotation_scheduler.ts and provider/single_flight_lock.ts: the ticks
--                   of several instances as steps in any order.
--   OidcAdapter     adapters/database_adapter.ts, over Db: the artifacts of the OIDC provider.
--   RedisAdapter    adapters/redis_adapter.ts, over an interface of the commands of Redis: the same
--                   artifacts.
--   Audit           the events of audit/audit_sink.ts that these record.
--   Prelude         Boolean tests, lists, text, JavaScript numbers, and split, trim and join.
--
-- All paths are below packages/authkit-server/src. State is passed on explicitly: a handler takes
-- the world (the limiter's state, the audit log, the tokens, the tables, the session) and gives
-- back its result with the next world. A throw is none, or a constructor of the result where the
-- code tells throws apart. Where the code catches the throws of the limiter, the definitions do
-- so at the same calls, and what was written before a throw stays.
--
-- Parameters, since their code is elsewhere: the rows behind Lucid, Redis, the limiter, SHA-256,
-- SHA-1, HMAC, base64url, the hasher, the one-time codes of otplib, the ceremonies of
-- @simplewebauthn/server, the service of leaked passwords, the reading and printing of numbers
-- and of JSON, the encryption and the vault of the keystore, the tokens and accounts that the
-- provider finds, the clock, new ids, the answers of the token endpoint, the list of common
-- passwords, random draws, and the callbacks of a host, which are taken to answer. The laws that
-- a theorem needs of them are records among its hypotheses (PrintsNumbers, Hashes, IsHasher,
-- Seals, Works, RoundTrips, Decrypts, Holds), each with an instance in the tests. The vault is
-- one that gives back the text it was given; the file vault adds a line end, which JSON skips.
-- Times are natural numbers of milliseconds or minutes, as the code has them; the limiter counts
-- seconds, and the addition of calendar days to a time is a parameter. JavaScript numbers are
-- integers, fractions or not finite; those of settings are integers, fractions or NaN, without the
-- infinite ones, which JSON cannot hold and which the resolvers would keep.
--
-- The audit log stands for the sink of the host; a host without one records nothing, and nothing
-- else changes. The rate limits of the routes, a further layer, are not part of it.
--
-- Lists and loops are structural, so no definition runs on fuel. Concurrency is modelled where
-- the code takes a lock (the code slot), for the rotation of keys, and for the settings, where
-- other processes write the table between any two steps; the writes of other handlers are taken
-- one request at a time.
--
-- Not modelled: the HTTP controllers and views, the React, client, SDK and core packages, the
-- cloud vaults, the building of the OIDC provider, mail, the doctor, the commands, observability
-- and translations. The log of warnings is left out, and so is the wrapping of JavaScript numbers
-- beyond 2 ^ 53, except where the code asks for safe integers.
pub mod AccountLockout
pub mod AccountStatus
pub mod Accounts
pub mod Audit
pub mod Db
pub mod KeyRotation
pub mod Keystore
pub mod Limiter
pub mod LoginAttempt
pub mod Mfa
pub mod OidcAdapter
pub mod Orgs
pub mod OtpLockout
pub mod OtpLogin
pub mod Passkeys
pub mod Passwords
pub mod PersonalTokens
pub mod Prelude
pub mod RedisAdapter
pub mod RuntimeSettings
pub mod Settings
pub mod Sudo
pub mod TokenExchange
pub mod TokenHash
pub mod TrustedDevice
