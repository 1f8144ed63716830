-- ===== src/Lib.antt =====
-- SentinelMCP: a gateway between the clients of MCP tools and one upstream MCP server. A request
-- comes in through the bearer middleware, which finds the principal whose API key it carries;
-- `tools/list` gives the principal the tools that its policy allows; `tools/call` takes a token of
-- the principal's bucket, checks the policy, the upstream's tool list, the tool's schema and the
-- argument constraints, takes a slot below the ceiling of concurrent executions, forwards the
-- arguments unchanged, and appends one line to the audit log, whichever way it ends.
--
-- Files, and the code that they model:
--   Policy/Models, Policy/Loading: sentinelmcp/policy/models.py. Models has the classes as they are
--     after validation, Loading what validation does with a file's value, Loading/Escapes the
--     exceptions that come out of it beside a ValidationError, and Loading/File `load_policy`.
--   Policy/Schema, Policy/Engine: sentinelmcp/policy/engine.py. Policy/Engine/Spec says what
--     docs/policy-semantics.md asks, without the code's tests.
--   Limits/TokenBucket, RateLimiter, Concurrency: sentinelmcp/gateway/limits.py. The clock is an
--     argument of each operation. The context manager `acquire` is `with_slot` of Bridge/CallTool.
--   Audit/Names, Redaction, Record: sentinelmcp/telemetry/audit.py. Audit/Record/Schema says what a
--     payload may hold, without the code's functions.
--   Identity/Resolver, Middleware: sentinelmcp/gateway/identity.py, around any application.
--   Bridge/Results, State, Cache, ListTools, Turns, CallTool: sentinelmcp/gateway/bridge.py.
--     CallTool has the handler in one function for each stage. CallTool/Exits lists where it can end,
--     and the files beside it follow the state, the limiters, the log, the upstream's calls and the
--     reply from each exit. Bridge/Flight has the same handler as a machine that stops at each `await`
--     that can suspend, and Flight/Inquiry the handler of `tools/list`, so that any number of requests
--     can be in flight at one gateway: Flight/World lets them arrive and take their steps in any
--     order, Flight/Moves and Inquiry/Proceeding list the steps, Flight/Alone and Inquiry/Alone set a
--     request alone beside its handler, Flight/Traffic puts the middleware before them, and the other
--     files of Flight follow the slots, the rate limiter's tokens, the cache's lock, the log, the
--     upstream's calls and the progress of the requests.
--     Bridge/Visibility sets the two handlers side by side, and Bridge/Authenticated puts the
--     middleware before the call handler. Bridge/Runs follows many attempts, one after the other.
--   Server, Server/CommandLine: sentinelmcp/gateway/server.py, the objects that are built and
--     `main`. Server/CommandLine/Starting follows a start, Serving and Running what is served after it.
--   Examples/UpstreamServer: examples/upstream_server.py, its tools with their counters and tracker.
--   Examples/Demo: the credentials that the client of examples/demo.py sends.
--   Benchmarks/Statistics: the samples, percentiles and trial numbers of benchmarks/run.py.
--   Prelude, Float, Json, Text, Exec: Python's numbers, JSON values, texts, dicts and exceptions;
--     Json/Dumps is `json.dumps` as the audit log calls it. Bridge/CallTool/LogFile has the log's
--     file.
--   Tests: each theorem at concrete inputs.
--
-- State and exceptions. A handler is an action `Exec`: it takes the state and gives a result or a
-- raised exception, with the state that it leaves. Exceptions are cancellation, `TimeoutError`, and
-- any other `Exception` with its text; `KeyboardInterrupt` and its like, which end the process, are
-- left out. Each asyncio lock of the limiters is held over code that never suspends, so those
-- operations are single steps; the locks of the tool cache and of the audit log are held over an
-- `await`, and a caller may be cancelled there: `lock_wait` and `Fate` of Bridge/State say how the
-- wait and the write end. In Flight the cache's lock is part of the shared state, and the write of a
-- record is one step, since the audit log's lock lets one line through at a time. A cancellation
-- that lands during the upstream call is the answer `cancelled_error`. The readings of the clocks,
-- the correlation ID and the upstream's answers are fields of `Surroundings`, with one reading for
-- the two records that an attempt can emit.
--
-- Numbers. A `float` of the policy or of the arguments is the fraction that it stands for, and
-- comparisons are exact, as Python's are. Tokens and time of the limiters are whole multiples of a
-- unit as small as one likes, `token` being the units of one token, with exact arithmetic: the
-- rounding of binary64 sums is left out. `asyncio.wait_for` with an answer at the very deadline is a
-- timeout, and with a timeout that is not above zero it does not start the call (Bridge/Placing). The
-- benchmarks' times are whole multiples of a unit, their percentiles hundredths of it, and their rates
-- fractions.
--
-- Parameters, for code of other packages: what reading the policy file and `yaml.safe_load` give,
-- pydantic's conversions of single values, `re.compile`, the numerals of the command line,
-- `re.fullmatch`, `repr`, `str.lower` beyond ASCII, `jsonschema.validate`, SHA-256, the environment,
-- and the upstream. Nothing is assumed of them, but in two places: a policy is read back where the
-- conversions keep a value that has the type already, and the log's file splits into its lines where
-- `repr` of a finite `float` has no control character. A policy file holds values that JSON can
-- hold: dates, sets and keys that are not texts are left out.
--
-- Not modelled: the SDK's servers with their sessions and transports, the upstream's connection,
-- `uvicorn`, how `argparse` splits the command line, the bytes of the 401 answer, the stopwatch
-- and the identifiers of telemetry, whose readings are given, what the scripts of examples print,
-- of the benchmarks what is not the statistics of one trial, and the tests. No definition of the
-- program runs on fuel: the loops are over lists and texts. `drive` of Flight and `follow` of
-- Inquiry, which take one request through its steps, are given their number: six are enough for a
-- call and two for a list.
pub mod Prelude
pub mod Float
pub mod Json
pub mod Text
pub mod Policy
pub mod Exec
pub mod Limits
pub mod Audit
pub mod Identity
pub mod Bridge
pub mod Server
pub mod Examples
pub mod Benchmarks
pub mod Tests
