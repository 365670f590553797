-- ===== src/Lib.antt =====
-- A model of the decisions of the qeet-id server, an identity platform in Go: who may do what, who gets
-- tokens, and what the audit log proves. Each part below is translated from the code function by
-- function, and the theorems are about these translations.
--
-- Rebac (internal/access/authorization/rebac/rebac.go): relation tuples and the recursive check.
--   Refs has `parseObject` and `parseSubject`; Resolve has `resolve` with its depth cap and its visited
--   set; Store has the table with Write, Delete and the tuple fetcher; Expand has the graph. The
--   code's "any tuple fetcher" is the argument `fetch`, which may fail. `resolve` recurs on fuel: 27
--   nested calls are enough, one more than the cap of 25 needs (Total); `expand` takes 12 in the
--   same way. Closure, Covering, Sound, Visited and Complete compare the search with chains of tuples.
--   DepthCap shows a store where the cap and the visited set together refuse a user who has access, and
--   KeyClash one where two nodes are taken for one.
-- Abac (internal/access/authorization/abac/abac.go): attribute policies. Json has the values and
--   `resolvePath`; Compare has `equal` and `compare`; Condition has `evalLeaf` and `evaluateNode`;
--   Validate has `validateCondition`; Decide has the loop of `Evaluate`; Service has the
--   table with Create, Update and Delete, and Stored what it keeps. The operations on float64,
--   fmt's %v and regexp are fields of `Host`. A run-time panic of Go is the outcome `panicked`. The
--   evaluator recurs on fuel, one more than the depth of the condition (Total). Meaning and
--   Related read conditions and their leaves apart from the code, with `resolvePath` and what Go says of
--   floats, %v and patterns; Alike, Operators, Leaves and Faithful compare the evaluator with them.
-- Device (internal/federation/oidc/device.go): the device authorization grant. Rows has the tables and the
--   SQL statements of dbgen/queries.sql.go; Flow has DeviceAuthorize, LookupDeviceByUserCode and
--   DecideDevice, Token has DeviceToken and RevokeDevice. Each operation takes the
--   tables and gives them back, as they were where the transaction is rolled back. Clients and users
--   stay the same during a run. `Clock` has the time of the service and that
--   of the database, which may differ. Moves is the state machine of one row; Run strings operations
--   together, in the order in which they lock the row. Codes and ids that are drawn at random are
--   arguments (`Draws`); the hash and ToUpper are fields of `Env`.
-- Audit (internal/operations/audit/audit.go, verifier.go): the hash chain. Chain has Record and Verify; Append
--   and Tamper prove what they promise. SHA-256, encoding/json and the conversions of the database
--   are fields of `Host`, and what is needed of them is a hypothesis (`IsStable`, `ToldApart`).
-- Signin (internal/access/authentication/lockout.go, service.go): the check of a password with the lock
--   after failed attempts. Attempts has the counter and its statements; Check has CheckPassword; Cleared, Proven
--   and Outcome say when it succeeds. The
--   store of users, the password hash and the login hook are fields of `Env`; `Moment` has the clocks
--   and whether the statements on the counter go through.
-- Outbox (internal/platform/events/outbox/outbox.go): the queue of events. Queue has Enqueue and one round of
--   the dispatcher with recordFailure; Conserve, Healthy and Deliver prove what holds of a round. The
--   answers of the publisher and of the database for each event are arguments (`Round`), and rounds
--   follow one another.
-- Oidc (internal/federation/oidc/oidc.go): tokens for clients. Rows has the tables and statements; Codes
--   has Authorize and ExchangeCode with PKCE, Refreshing has RefreshToken with its rotation, RevokeToken
--   and RevokeGrant, Exchange has TokenExchange and Introspect. Run strings operations together over
--   Base.Runs, with the refresh tokens of the device and CIBA grants, whose own checks are in Device
--   and Ciba. Signed tokens are records of what they say (`Tokens`), the verification of a token, the
--   hashes and the clients are fields of `Env`, random values are arguments. A token is known by its
--   value, which stands for its hash.
-- Rbac (internal/access/authorization/rbac, internal/bootstrap/permissions.go): roles. Enforce has the guard
--   of the routes with its pattern matching, Table the map of routes; Roles has the tables, Check and
--   the operations of rbac.go, Explain has Explain and EffectivePermissions. A statement that breaks a
--   foreign key is the error `storage`. An order in which Go ranges over a map is a list of its entries
--   in any order.
-- Mfa (internal/access/mfa/mfa.go): second factors. Totp has the codes by time of
--   internal/platform/crypto/encryption/totp/totp.go, Numeric the random codes of
--   internal/platform/http/codes/codes.go; Rows has the tables, Factors the operations on codes by time and
--   recovery codes with the step-up guard, Otp those on codes by email and text message. Run strings
--   operations together, one after another: transactions that overlap are not modelled here, and the
--   statements on recovery codes, which take no lock, can do more in them. HMAC,
--   base32, the hashes and strings.ToLower are fields of `Env`; random numbers are arguments.
-- Ciba (internal/federation/oidc/ciba.go): backchannel authentication. Requests has BackchannelAuthorize,
--   DecideBackchannel and BackchannelToken over the table of requests; Run strings operations together.
--   Clients and their secrets are those of Oidc; the notification of the user is left out.
-- Errs (internal/platform/http/errs/errs.go) has the errors and results that the parts share; Base has the
--   library names, Boolean tests, list and text helpers.
--
-- The parts meet in the service: the routes are guarded by Rbac, the handlers ask Rebac and Abac
-- for decisions, and every change is recorded by Audit in the same transaction. The handlers (but
-- for two guarded routes of Mfa), the signing of tokens and the texts of error messages are not
-- modelled. Failures of the database are modelled in Rebac's fetcher, in Signin and in Outbox;
-- elsewhere only constraints make a statement fail. All numbers are natural numbers: ids, times in
-- nanoseconds (Device, Oidc, Ciba), seconds (Signin, Mfa), microseconds (Audit) or milliseconds
-- (Outbox), and 64-bit patterns of floats (Abac). The one narrowing, int32 of a policy's priority,
-- is written out, as are the widths of random codes and of sums; nothing else in the modelled code
-- overflows. The rest of the server (sessions, passkeys, SAML, SCIM, LDAP, webhooks, reporting,
-- configuration, wiring) is not modelled.
mod Base
pub mod Errs
pub mod Rebac
pub mod Abac
pub mod Device
pub mod Audit
pub mod Outbox
pub mod Signin
pub mod Oidc
pub mod Rbac
pub mod Mfa
pub mod Ciba
