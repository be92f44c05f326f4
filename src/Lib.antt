-- ===== src/Lib.antt =====
-- The backend of a stock-screening service (app/): accounts, private watchlists, ingestion of
-- screening snapshots and whole-market prices, and a backtest over both. FastAPI handlers
-- (app/routers/) call the functions of app/crud.py on the tables of app/models.py; app/security.py
-- makes and checks access tokens, app/ratelimit.py refuses clients that ask too often, and
-- app/backtest.py computes forward returns.
--
-- The parts and their files:
--   Prelude, Prelude/*  Boolean tests on the native numbers, Python's strings as code points with
--     `strip` and `lower`, stable sorting by a Boolean order, lists without repetition.
--   Http  How a handler ends: a value, an HTTPException, or an uncaught exception. A handler is a
--     function of the state that also gives the state back after a raise, since what it committed
--     stays.
--   RateLimit  app/ratelimit.py. Limiter is SlidingWindowLimiter, with the deques in an association
--     list; check, maybe_sweep, enforce and reset have the names of the source, prune and admit are
--     the two halves of check. RateLimit/Deque, Sweep, Window, Refusal and Buckets hold the lemmas,
--     RateLimit/Unswept those on a limiter that never sweeps. RateLimit/Client is client_ip.
--   Users  User and EmailToken of app/models.py and the functions of app/crud.py on them. World is
--     all that the account handlers read and write: the limiter, the two tables and the queued
--     mails. A commit that breaks a unique key raises integrity_error and changes nothing.
--   Security  app/security.py. Crypto stands for passlib, hashlib, PyJWT and uuid, with what the
--     code relies on as laws; Security/Example is an instance. Its takes_password says which
--     passwords passlib accepts: on another, such as one with a NUL under bcrypt, hash and verify
--     raise, which is value_error. Settings are the fields of
--     app/config.py that are read.
--   Auth  app/routers/auth.py, one action for each handler. Request holds what a call draws or is
--     told from outside: the clock readings, the address, the credentials, fresh ids and random
--     tokens. Auth/Reset, Mailing, Registration, Entry and
--     Invariant hold the lemmas.
--     Auth/Recovery is the way from a forgotten password back in. Auth/Bodies has the bodies of the
--     endpoints (app/schemas.py) with the checks on them in front of the handlers, Auth/Refusals
--     and Accepted the lemmas on those.
--   Records  the watchlist rows: Record and its functions in app/crud.py. Records/Api has the
--     endpoints of app/routers/records.py, Records/Isolation what they do for different users.
--   Prices  DailyPrice, its functions in app/crud.py, and ingest_prices of app/routers/ingest.py.
--   Snapshots  the tables of screening snapshots, their functions in app/crud.py, and
--     ingest_snapshot of app/routers/ingest.py. The backtest reads the join of the two tables.
--     Snapshots/Archive has the abstract view of the tables, a function from days and sessions to
--     what was uploaded; Snapshots/Effect and Stays what one accepted upload does to it, and
--     Snapshots/Uploads sequences of uploads.
--   Ingest  app/routers/ingest.py with its guard: require_ingest_token before the two handlers.
--   Backtest  app/backtest.py: Backtest is the data and the calendar arithmetic, Backtest/Engine
--     the loop over entries and horizons, Backtest/Run the whole of run_backtest. Floats stands for
--     Python's float arithmetic, its comparisons with zero, which all fail on a NaN, and the
--     module statistics. Backtest/Accounts has the lemmas on the
--     aggregates, Ordering, Settled and Ranking those on the detail table.
--   BacktestApi  app/routers/backtest.py: the query is parsed and validated and handed to
--     run_backtest, whose ValueErrors become the 422. BacktestApi/Parsing, Answers and Limits hold
--     the lemmas; BacktestApi/Endpoint is the endpoint with its defaults and bounds.
--   Mail  app/email.py, the mail settings and validators of app/config.py, and the warnings that
--     app/main.py logs at start. A delivery is the list of commands sent to the SMTP server, which
--     is a parameter that says of each command whether it succeeds. Mail/Messages has the two
--     messages, Mail/Delivery the lemmas. The account handlers end in a queue of mails; what a
--     background task then does with one is send_email.
--   Workbooks  app/download_xlsx.py: a workbook is the list of calls on its sheet, in their order.
--     Workbooks/Layout has the lemmas on rows and formats, Workbooks/Backtest the two sheets of
--     app/backtest_xlsx.py, which BacktestApi/File answers with.
--   Downloads  app/routers/download.py; Downloads/Range holds the lemmas.
--   Migrations  alembic/versions/: the schema as data, the operations that the revisions call, and
--     what the database does on each. Migrations/Versions has a module for each revision, and
--     Migrations/Columns what they share. Migrations/Backfill is what the third revision does to
--     the rows of users, Migrations/Database what the operations do besides the schema: to those
--     rows, with the refusal by the unique index, and to the extension pgcrypto. Migrations/Frame
--     and Roundtrip hold the lemmas on upgrades and downgrades.
--
-- Bounds and fuel: every loop is structural recursion but one, the chunks of load_close_prices,
-- which runs on the number of symbols; Prices/Chunks has the loop as a relation. Numbers are
-- unbounded, as Python's are. The ids, which are UUIDs, are numbers. The counts, ranks and volumes
-- of an upload are natural numbers, where the source admits negative ones too; the code stores them
-- and sorts by the rank. The ranges of the columns they are stored in are not modelled.
--
-- How time is read: the limiter's clock in microseconds, where the source has floats of seconds;
-- comparisons with `now - w` are written as `x + w` against `now`. A request reads each clock once,
-- where the source reads it at several places within one request. A date is an ordinal number.
--
-- What is not modelled: FastAPI's routing, pydantic's validation of other bodies than those of the
-- account endpoints, the lock of the limiter (calls happen one after another, in the order in which
-- they read the clock), the bytes that openpyxl writes, its fonts and fills, the lines that are
-- logged apart from those at start, CORS, the database engine, the reading of the settings from the
-- environment, the rounding of floats and of decimal columns, and the size of the tables on disk.
-- Python's int on a string, str of a number and the formats of days are parameters. A message is
-- one that email.message accepts. `strip` and `lower` are those of ASCII text.
pub mod Prelude
pub mod Http
pub mod RateLimit
pub mod Users
pub mod Security
pub mod Auth
pub mod Records
pub mod Prices
pub mod Snapshots
pub mod Backtest
pub mod Ingest
pub mod BacktestApi
pub mod Mail
pub mod Workbooks
pub mod Downloads
pub mod Migrations
