-- ===== src/Lib.antt =====
-- The control plane of EntraShift, the Worker that stands between the browser, the migration engine
-- and the database, and the library of the browser that asks it, as functions, with the theorems that
-- make their parts correct.
--
-- How the parts interact. A request passes the guards (worker/src/middleware), then a handler
-- (worker/src/routes), which reads and writes the tables (worker/src/db), sends messages to the
-- engine over a queue and hands the use it made to the budget governor (worker/src/lib/budget.ts).
-- The engine answers through the handlers of worker/src/routes/vm.ts.
--
-- Which file models what:
-- - Contracts, Numbers, Errors: shared/contracts.ts, numbers that the settings hold, and
--   worker/src/lib/errors.ts with the error handler of worker/src/index.ts.
-- - Csv: worker/src/lib/csv.ts, parsing, serialising and the validation of an import.
-- - Db: the tables of worker/migrations/0001_init.sql, each statement of worker/src/db as a function
--   on the list of rows. Db/Jobs has the statements on jobs, Db/Jobs/Keys, Db/Jobs/Create and
--   Db/Jobs/Sequence what they keep.
-- - App: the state that a request runs in and a monad of state and thrown errors; App/Triple has one
--   rule for each way to build a handler, by which invariants are carried through.
-- - Budget, Middleware, Auth: the governor, the guards, and sessions with signing in and out.
--   Auth/Jwt, Auth/Oidc and Auth/Access have the checks of worker/src/lib/jwt.ts, worker/src/auth/oidc.ts and
--   worker/src/auth/access.ts.
-- - Crypto: worker/src/lib/crypto.ts, the temporary password over a list of random bytes and the
--   envelope of a secret; Graph: worker/src/graph/client.ts.
-- - Routes: the handlers, one file for each router, and in Routes/Gate the guards in front of them.
--   Routes/Requests runs the handlers on jobs one after the other.
-- - Web: the browser's library. Web/Page and Web/Client have the request core of
--   web/src/lib/api.ts, Web/Endpoints its calls, Web/Poll its polling helper and Web/Loading the hook of
--   web/src/lib/useAsync.ts, the last two as state machines with a step relation. Web/Discovery,
--   Web/Monitor and Web/Mapping have the state of three screens of web/src/screens.
-- - Common: lists, texts, options and tests that all parts share. Tests: examples.
--
-- How it is modelled. A text is the list of its UTF-16 units. An instant is a number of
-- milliseconds, and a request runs at one instant. A thrown error is a value, and what was written
-- before it stays written. The runtime is a parameter: SHA-256, letter case, and the n-th random
-- value. So are base64 and AES-GCM, the decoding of a token, the keys of its issuer and its signature,
-- the exchange of a sign-in code, and what Microsoft Graph answers. The accounts that Graph has
-- created are a list in the state; an account of which the answer was lost is not among them.
-- A setting is a decimal numeral, read as a fraction without rounding to 53 bits. Uses for the
-- budget are recorded after the response, one after the other.
--
-- Bounds and fuel. The decimal text of a number has one unit of fuel for each digit. The export of
-- the audit log reads at most 200 pages, as the code does. A temporary password has a result only
-- if the list of bytes is long enough. The request core of the browser calls itself two levels deep, which
-- is its fuel. Nothing else is bounded.
--
-- What is not modelled: a clash of the fresh random ids of audit entries, items and credentials,
-- whose inserts always succeed here. Left out are the cache of an issuer's keys, the address of the sign-in
-- page, the browser's other screens, what is drawn, and the engine. The memory of the rate limiter is that of one isolate.
pub mod Common
pub mod Csv
pub mod Numbers
pub mod Contracts
pub mod Errors
pub mod Crypto
pub mod Graph
pub mod Db
pub mod App
pub mod Budget
pub mod Auth
pub mod Middleware
pub mod Routes
pub mod Web
pub mod Tests
