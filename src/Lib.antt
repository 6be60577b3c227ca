-- ===== src/Lib.antt =====
-- express-core: the sessions, codes, messages and access control of an Express service over a
-- PostgreSQL database (Prisma), a Redis cache and a BullMQ broker.
--
-- How the program is put together. A service method opens a transaction and calls repositories,
-- one statement each. E-mails are not sent in the transaction: it adds a row to the outbox, a relay
-- leases due rows, hands them to the broker and marks them as published, retried or failed, and a
-- failed row leaves a dead letter that an operator may re-drive once. A session is a family of
-- refresh tokens; each is exchanged once, for a successor that is stored sealed under its
-- predecessor, so that retries within a grace window get the same answer.
--
-- How it is modelled. `Store` has the tables as lists of rows (prisma/schema.prisma); a statement
-- is a function on the database, `Tx` inside a transaction, where an error keeps nothing, and
-- `Exec` outside, where what was written before stays. Times are milliseconds and are arguments;
-- random values are arguments of the operations that draw them. What other transactions commit in
-- the middle of an operation is an argument of it: `race` in an exchange, `commits` in the
-- revocation loop, `locked` in a claim of outbox rows; the access cache has a step relation.
--
--   Base        tests on numbers, statements on lists of rows and their laws
--   Config      config/env.ts (src/config/env.ts of the repository)
--   Crypto      what comes from node:crypto, bcryptjs, jsonwebtoken and the runtime: parameters
--   Auth        src/modules/auth: Successor (refresh-successor.ts), Tokens and EmailTokens
--               (auth.repository.ts), Rotation (refresh-rotation.ts), Registration, Session and
--               Verification (auth.service.ts)
--   Otp         src/modules/otp: the repository, Code (otp.code.ts) and Service (otp.service.ts)
--   Accounts    the user and role statements of the auth, user and role repositories
--   Outbox      src/modules/outbox/outbox.repository.ts
--   Relay       src/jobs/relay/outbox-relay.ts
--   DeadLetter  src/modules/dead-letter/dead-letter.service.ts
--   Slug        src/utils/sluggable.ts; Accounts.Slugs has its calls by the services
--   Paginator   src/utils/paginator.ts
--   Rbac        src/services/rbac-cache.service.ts, src/middleware/resolve-role.ts,
--               src/middleware/rbac.middleware.ts and src/middleware/user-type.middleware.ts
--   Users       src/modules/user/user.service.ts: deleteUser, and Admin (createUser, updateUser)
--   Roles       src/modules/role/role.service.ts and role.permissions.ts
--   Redis       what the role and profile services keep in Redis
--   Profiles    src/modules/profile: profile.service.ts, profile.repository.ts, profile.fields.ts
--   Activity    logActivity of src/services/system.service.ts
--   Templates   src/modules/email-template: email-template.render.ts, Catalog
--               (email-template.catalog.ts) and Service (email-template.service.ts)
--   Mail        src/email/mailer.ts and src/services/email.service.ts; Jobs is
--               src/jobs/workers/email.processor.ts and worker-logging.ts
--   Gateway     src/middleware/origin-check.middleware.ts and auth.middleware.ts
--   Cron        src/jobs/cron/index.ts
--   Shutdown    src/utils/graceful-shutdown.ts
--   Urls        src/utils/url.ts and the public address of src/services/storage.service.ts
--   Seeders     src/seeders and src/scripts/seed.ts
--   Retention   the retention loops of the repositories and the jobs of
--               src/services/system.service.ts
--   Failures    src/middleware/error.middleware.ts
--   Tests       concrete data, and each theorem that has conditions applied to it
--
-- Bounds and fuel. `latest_successor` follows five hops and `revoke_passes` makes ten passes, as
-- the code does. `unique_from` searches a free slug on fuel, one round more than the table has
-- rows; running out of it would be an error of the model, and `Slug.Search` is about it.
--
-- Not modelled: HTTP wiring, logging and file uploads, which are I/O; request schemas
-- (zod), the sanitizers and the parsing of the environment, which are library calls. nodemailer,
-- fetch, URL and the layout of an e-mail are parameters. Database sequences do not overflow, a
-- lost `rbac:version` key is not among the steps of the access cache, Redis answers whenever a
-- service asks it (an e-mail job may meet its failures), and the sequences of role, user, profile
-- and template requests do not interleave within a request. The ids that an insert of an existing
-- template key skips are left out.
pub mod Base
pub mod Store
pub mod Config
pub mod Crypto
pub mod Slug
pub mod Outbox
pub mod Relay
pub mod DeadLetter
pub mod Accounts
pub mod Otp
pub mod Auth
pub mod Rbac
pub mod Paginator
pub mod Users
pub mod Retention
pub mod Failures
pub mod Tests
pub mod Activity
pub mod Cron
pub mod Gateway
pub mod Mail
pub mod Profiles
pub mod Redis
pub mod Roles
pub mod Seeders
pub mod Shutdown
pub mod Templates
pub mod Urls
