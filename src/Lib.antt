-- ===== src/Lib.antt =====
-- The core of the OAuth 2.0 authorization server, as functions on the rows of its database, with the
-- theorems on them. A request is a function from the database to the database and a result; what it
-- wrote before it threw stays written, except inside a transaction. The modules and their code:
--
-- - Common: shared tests, lists, texts and sets. Common.Effect holds exceptions as values (Fault),
--   sequencing, `transaction` ($transaction) and `or_refused` (the catch of RefreshGateRefused).
-- - Scopes (src/oauth/oauth-scopes.registry.ts): permittedScopes, grantableScope.
-- - Resource (src/oauth/resource-registry.ts): isRegisteredResource, isOwnResource, isResourceAllowed.
-- - FieldCrypto (src/common/field-crypto.ts): the envelope of an encrypted field.
-- - Store (prisma/schema.prisma): the rows, as records, and the queries on them. A token row or a
--   code row holds its person, as the source reads it with `include: { user: true }`.
-- - Grace (src/oauth/refresh-grace.ts, src/oauth/token-expiry.ts): the reuse grace of a rotation, and
--   claimRotation, which runs in the transaction that inserts the child.
-- - Lane (src/oauth/customer-lane.ts, src/oauth/customer-lane.service.ts): a tenant's own customers.
-- - AdminScope (src/admin/admin-scope.ts, src/oauth/platform-role-claim.ts).
-- - Claims (src/oauth/custom-claims.ts, src/oauth/org-claims.ts, and resolveOrgContext,
--   buildAccessToken and buildIdToken of src/oauth/oauth-token-issuer.service.ts).
-- - Issuer (src/oauth/oauth-token-issuer.service.ts): generateTokens, persistRefreshToken, revokeToken.
-- - Refresh (src/oauth/refresh-grant.ts, src/oauth/refresh-bounds.ts): `refresh` is the whole request,
--   `rotate` its second half on the row as it was read, so that other requests may come in between.
--   Refresh.Chain says what a well-formed table is, Refresh.Quiet which paths only settle rows,
--   Refresh.Rotation how a rotation ends, Refresh.Grant what a refresh may grant, Refresh.Success when
--   it goes through, Refresh.Life what any sequence of operations comes to.
-- - StepUp (src/oauth/step-up.service.ts): assurance ranks.
-- - Codes (src/oauth/oauth.service.ts, src/oauth/pkce.service.ts): authorization codes.
-- - Device (src/oauth/device-flow.service.ts): the device grant, on a table of its own.
-- - Redis (src/common/redis.service.ts): the interface of the server, what it documents, and a server
--   in memory that meets it. Its clients take it as a parameter.
-- - Auth: signing in, on the account rows (SignIn also holds the server). Auth.Otp
--   (src/auth/otp/otp.service.ts): one-time codes; Auth.Otp.Tries is the machine that verification
--   refines. Auth.Password (loginWithPassword of src/auth/auth.service.ts, and
--   src/auth/login-security.service.ts): login and lockout. Auth.Magic (src/auth/magic-link.service.ts).
--   Auth.Reset (the password reset of src/auth/auth.service.ts). Auth.Mfa
--   (src/identity/identity-mfa.service.ts, src/identity/backup-codes.ts): TOTP and backup codes.
-- - Consent (src/oauth/consent.service.ts), on the database of the core.
-- - Par (src/oauth/par.service.ts): pushed requests, on Redis.
-- - Assertion (src/oauth/client-assertion.service.ts, src/oauth/client-assertion-jti.store.ts,
--   src/oauth/client-assertion-jti-reaper.service.ts): private_key_jwt, with jose as a parameter.
-- - M2m (src/oauth/oauth-m2m.service.ts, isSelfAgent of src/oauth/self-agent.ts, requestedAudience of
--   src/oauth/token-support.ts): tokens of machines and token exchange.
-- - Logout (src/oauth/logout-redirect.ts): where a logout may redirect.
-- - Session (src/session/session.service.ts): sessions, on the token table of the core.
-- - ClientIp (src/common/client-ip.ts): the address a request comes from, with node:net as a parameter.
-- - Rbac (src/rbac/permissions.ts, src/rbac/rbac.service.ts, src/rbac/org-rbac.guard.ts): the
--   permissions of a role in an organization, and the guard that asks for them.
-- - Idempotency (src/common/idempotency.interceptor.ts): retries under one key, on Redis; its write,
--   which the source does not wait for, is done before the answer here and does not fail.
-- - Samples: the rows and requests of the tests, which stand in the modules called Tests.
--
-- Issuer uses Claims, Lane and Store; Refresh runs Issuer.generate_tokens with Grace.claim_rotation as
-- its gate; Codes runs it without a gate, and Lane's admission when a code is made. Auth.Otp, Par
-- and Idempotency keep their values on the interface Redis; Consent and Session write the token rows that Refresh reads,
-- and erase the pairs that Grace keeps.
--
-- Conventions. Times are milliseconds, and a request reads the clock once; a validity of seven days or
-- ten minutes is that many milliseconds. Random values (the token, the row's id, the IV) are arguments
-- of the request. HMAC, SHA-256, AES-256-GCM, JSON, JWT signing, the URL parser and case folding belong
-- to the runtime and are parameters, as are bcrypt, TOTP and jose; AgentsService.actFor,
-- PersonalWorkspaceService.provisionFor and AuthorizationDetailsService.parse are components of their
-- own, and parameters too. The description of an error leaves out the values that the source
-- interpolates. No loop needs fuel: all recursion is on
-- lists and texts.
--
-- Not modelled: logging, mail and metrics; the deletion of expired rows as a step of the token
-- table's life (Codes.cleanup_expired models the operation, Refresh.Life leaves it out, since a
-- child may outlive its parent's row); the isolation of two transactions inside the database,
-- beyond the order of their single statements, of which a rotation's gate and insert are taken as
-- one; two verifications of a one-time code that interleave between their read and their write;
-- registration, passkeys and federated sign-in, the dispatch of the token endpoint, DPoP and mTLS, SCIM,
-- SSF and the frontend.
pub mod Rbac
pub mod Redis
pub mod Auth
pub mod Consent
pub mod Par
pub mod Assertion
pub mod M2m
pub mod Logout
pub mod Session
pub mod ClientIp
pub mod Idempotency
pub mod Common
pub mod Scopes
pub mod Resource
pub mod FieldCrypto
pub mod Store
pub mod Grace
pub mod Lane
pub mod AdminScope
pub mod Claims
pub mod Issuer
pub mod Refresh
pub mod StepUp
pub mod Codes
pub mod Device
pub mod Samples
