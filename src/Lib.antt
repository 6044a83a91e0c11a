-- ===== src/Lib.antt =====
-- A model of the product core of inbox-saas and of its worker, with the theorems that make the
-- tenant-validation pipeline correct.
--
-- The program. An API client asks for the validation of a Microsoft tenant
-- (packages/product/src/tenant-validation.ts, startTenantValidation). One transaction stores a tenant
-- connection, a job, an idempotency record and an outbox event. The worker
-- (apps/worker/src/tenant-validation-worker.ts) sends due events to a queue, claims the job under a
-- lease, asks the provisioner, and applies the result, fenced by the lease's token. Expired leases are
-- recovered into the queue. The worker admits Microsoft work through a limiter. The lint rules under
-- tools/oxlint/anti-slop keep the repository's types explicit; they resolve type aliases.
--
-- Files and sources.
-- - Access, Access/Coverage: packages/product/src/access.ts.
-- - ApiKeys and its children: packages/product/src/api-keys.ts. Tokens has the token's text and pattern,
--   Keys and Accepted hold the proofs.
-- - ControlPlane, ControlPlane/Visibility: packages/product/src/control-plane.ts.
-- - Entitlements: packages/product/src/entitlements.ts.
-- - Config, Config/Checked: apps/worker/src/runtime-config.ts.
-- - Credentials: the types of packages/product/src/tenant-credentials.ts; Credentials/Encoding the
--   cipher and its bytes, Credentials/Encoding/Injective the proofs.
-- - Contract: packages/provisioner-contract/src/index.ts, the request and the result union.
-- - Schema, Schema/Statements: packages/db/src/schema/product.ts, rows, unique indexes, foreign keys.
-- - Table, Table/Laws, Table/Links: the select, update and insert statements, on lists of rows.
-- - Errors: thrown values, and isUniqueViolation of tenant-validation.ts.
-- - Validation and its children: tenant-validation.ts. Base has the shared helpers, Start
--   startTenantValidation, Lookup getTenantValidationJob, Lease claimTenantValidationJob and
--   renewTenantValidationJobLease, Recovery recoverExpiredTenantValidationJobs, Apply
--   applyTenantValidationResult. Jobs, and the children of these files, hold the proofs.
-- - Limiter: apps/worker/src/microsoft-work-limiter.ts.
-- - Provisioner: apps/worker/src/provisioner-client.ts, provisioner-request-auth.ts and
--   provisioner-transport-encryption.ts, with the decimal text of a timestamp in Provisioner/Decimal and
--   the proofs in Signature and Exchange; Provisioner/Fake: apps/worker/src/fake-provisioner.ts.
-- - System and its children: the operations of tenant-validation.ts, api-keys.ts and tenant-
--   validation-worker.ts together. Life has the diagram of a job's states, Consistency the tables
--   that fit together and what a database may become, Traces the relation of databases that the
--   operations reach in any order and overlap, Rounds the runs of the worker as such sequences,
--   Leases and Completion a run that comes to its end, Answers the lookup of a job; the others hold
--   one lemma for each statement and operation.
-- - Lint and its children: tools/oxlint/anti-slop. Scopes is shared/lexical-type-parameters.ts and the
--   scopes of shared/type-alias-resolution.ts, Aliases and Aliases/Resolution the rest of that file,
--   Rules the questions of no-unknown-type-aliases, no-unknown-returns and no-object-parameters, and
--   containsUnknownType of shared/function-parameters.ts; the other children of Aliases hold the
--   proofs. Dictionaries and its children are shared/dictionary-types.ts, where the table of
--   interfaces is given: Shapes has its substitutions, Widening the targets of widening, Evidence the
--   expressions.
-- - Worker and its children: apps/worker/src/tenant-validation-worker.ts. Dispatch has the dispatch and
--   the tick, Process the run of a job; the children of Dispatch and Calls hold the proofs.
-- - Api, Api/Text, Api/Answers: packages/api/src/v1.ts, its routes, its patterns, and the proofs.
-- - Tests: the theorems at concrete inputs.
--
-- How code becomes model. The database is a record of tables, each a list of rows. A statement that
-- breaks a unique index or a foreign key throws the error that the driver is said to throw, and a
-- transaction that throws leaves the database as it was. An operation takes the effect of other
-- sessions' commits between its reads and its writes as an argument, so the theorems hold under
-- interleavings at that point. Uuids are numbers of which only equality is used; how PostgreSQL
-- reads and prints their text is a parameter. Times are milliseconds since the epoch, at least 0.
-- Texts are strings; where the code looks at characters, lists of code units. Random values, the
-- clock, the cipher and the primitives of node:crypto are arguments. A claim throws when its
-- attempt would not fit the column, an integer of 32 bits. Times and the durations of leases are
-- whole milliseconds; a fraction of one, and a sum beyond the range of a Date, are left out. The
-- commits of other sessions during a dispatch are taken between its selection and its first mark.
-- Loops are structural recursions, with three exceptions. The decimal text of a number takes one
-- step of fuel more than the number, and every step divides by ten. The evaluation of types in
-- Lint/Aliases/Resolution takes any fuel, answers nothing when it runs out, and the theorem on its
-- end says that some fuel is enough. What follows substitutions in Lint/Dictionaries takes any fuel
-- too. A node of a program is given with its parents up to the root, which a parser makes finite.
--
-- Not modelled: the web application, the documentation site, the UI library, the lint rules on
-- widening and on single constructs, the collection of interfaces, the reports and the parser of the
-- linter, server and worker start-up, the set-up of the pg-boss queue, authentication of browser
-- sessions and the Python provisioner.
pub mod Prelude
pub mod Access
pub mod Limiter
pub mod Errors
pub mod Table
pub mod Schema
pub mod Credentials
pub mod Entitlements
pub mod System
pub mod Provisioner
pub mod Lint
pub mod Validation
pub mod Worker
pub mod Contract
mod Tests
pub mod Api
pub mod ApiKeys
pub mod Config
pub mod ControlPlane
