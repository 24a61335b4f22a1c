-- ===== src/Lib.antt =====
-- Verification of Balanz, a multi-tenant fiscal platform (a NestJS API and its workers under
-- apps/api, a web client under apps/web). The development models the parts on which the others
-- rest: who may do what, the sessions and the invitations that admit users, how the workers settle
-- the durable jobs of the fiscal ingestion, the rate limit of authentication, and the decoder of
-- the packages and the reader of the metadata that the tax administration (SAT) sends.
--
-- The parts, by file (paths from apps/api/src/):
--   Catalog        common/auth/permission-catalog.ts: the permissions, their metadata and the
--                  defaults of the roles, with the derived list of keys that demand a second factor.
--   Store          the entities that authorization reads and writes, as records; a repository is a
--                  list of rows, a date its milliseconds. Columns that no modelled operation touches
--                  are left out.
--   Access         common/auth/authorization-contract.ts and common/utils/permissions.util.ts
--                  (Contract); modules/sessions/authorization.service.ts: `resolve` with its set of
--                  effective permissions, `requireTenant`, `revalidateSession`, `requireMfa`
--                  (Effective, Resolve) and `changeOrganization` (Change);
--                  common/guards/permissions.guard.ts (Guard);
--                  modules/client-accounts/client-account-scope.service.ts (Scope) and
--                  fiscal-authorization.service.ts (Fiscal); modules/audit/audit.service.ts (Audit);
--                  modules/permissions/permission-administration.service.ts (Administration: its
--                  guards and transactions, Overrides: the table of overrides, View: what the
--                  administrators read).
--   Ingestion      modules/ingestion/services/ingestion-job.repository.ts: the arguments and the
--                  locked policy (Policy, Claim), `heartbeat`, `complete`, `releaseForShutdown`
--                  (Settlement), `failFinal` and `scheduleRetry` (Retry), `terminalizeManualItems`
--                  (Counters), and interleavings of workers as lists of calls (Calls); the rows and
--                  the checks of the tables are those of modules/ingestion/entities (Job); the
--                  trigger of database/migrations/1787690900000-PhaseTwoZipIngestion.ts that closes
--                  the items of a manual ZIP job is part of each change of a status (ManualZip).
--   RateLimit      modules/auth/rate-limit.service.ts: `consume`, with the digest of a key as a parameter.
--   Sessions       modules/redis/session-cache.service.ts (Cache) and
--                  modules/sessions/sessions.service.ts: activity and its persistence (Activity),
--                  creation and `resolve` (Service), rotation and revocation (Revocation).
--   Invitations    modules/invitations, with invitation-state.ts and its entities (Table): `accept`
--                  (Accept), `create` and the delivery (Create), `resendInvitation` and
--                  `revokeInvitation` (Pending), `changeMembershipStatus` (Members), sequences of
--                  calls (Calls), and what they write to the table, as a relation (Edits).
--   Sat            modules/sat-download: limits and the reading of a verification (Contract), and
--                  Base64Decoder and decodeSoapPackage of soap-package-stream.ts (Base64, Package,
--                  which starts from the events of the XML parser), and metadata-parser.ts: its
--                  patterns and limits, a line (Row) and the loop over the parts (Reader).
--   Http, Prelude  the exceptions that services throw, results, and shared lemmas.
--
-- A request's cookie is resolved by Sessions.Service, which asks Access.Resolve for the context,
-- and the request reaches Access.Guard with it; a membership that Invitations.Members suspends has
-- its sessions revoked by Sessions.Revocation; services on client accounts ask Access.Fiscal,
-- which asks Access.Scope and records refusals through Access.Audit; a worker re-authorizes itself
-- with `authorizeWorker` and settles its job in Ingestion under the lease that its claim names.
--
-- Conventions. A service takes the tables and returns them with its result or its exception; a
-- transaction that throws leaves them as they were. Each reading of the clock is an argument, in
-- the order of the readings; the readings of one SQL SET clause count as one. A row is found and
-- written by its primary key. New identifiers and tokens, the digest of a token, the random draw
-- of a backoff, the correlation of the running request, and whether Redis or the e-mail service
-- answers are arguments too. A key of Redis is a row with the time at which it ends. Numbers are
-- natural, since counters, versions and times here are never negative, and stay far from the
-- limits of their columns; the random delay is computed in exact arithmetic. No definition runs on
-- fuel: all recursion is on lists.
--
-- Not modelled: HTTP, TypeORM and PostgreSQL themselves, row-level security, the SQL functions of
-- database/migrations (among them the claim of a job and the request of its cancellation), the
-- triggers but the one on manual ZIP jobs, whose retention of stored objects is left out, the
-- listings of organizations, roles, memberships and invitations, `changeMembershipRole`, the
-- cookies and the parsing of cached sessions, the conflicts that only a unique index would report,
-- and the other modules: authentication, the XML parser and the requests to the SAT, CFDI parsing,
-- object storage, billing, and the web client. The readers of the SAT's answers start from what
-- the decoder of UTF-8 and the XML parser give them; what these refuse ends the reading.
pub mod Prelude
pub mod Http
pub mod Catalog
pub mod Store
pub mod Access
pub mod Ingestion
pub mod Invitations
pub mod RateLimit
pub mod Sat
pub mod Sessions
