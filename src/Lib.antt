-- ===== src/Lib.antt =====
-- MCP Gatehound stands between MCP clients and the tools of an operator: it authenticates a request,
-- decides by policy whether its client may use the tool that it names, asks the operator where the policy
-- says so, runs the tool's fixed action, and keeps a log. This library models the Rust core of that
-- program (crates/gatehound-core/src) and proves what makes its parts correct.
--
-- The parts, by the order in which a request meets them:
-- Auth models auth.rs. Auth/Headers reads the credentials (bearer, access_token, cookie_value),
--   Auth/Access the Cloudflare Access token and the cached key set (jwks, verify), Auth/Factors both
--   factors together (authenticate), Auth/Failure the refusal and its challenge. The state is the
--   Authenticator with its Verifier's cache and the connection to the store. The crate jsonwebtoken is the
--   record Jose, the network a function from the number of a request to its answer.
-- Tokens models tokens.rs (mint, split, matches), with SHA-256 and the random identifiers as arguments.
--   Secrets models both comparisons in constant time over the UTF-8 of a text.
-- Policy models policy.rs over Store/Rules. A database that does not answer denies.
-- Approval models approval.rs with the events of events.rs. Held calls wait side by side, so the queue's
--   state keeps each with its end of the channel; hold_from is split at its wait into hold_from and
--   finish, and Step of Approval/Steps lists what can happen in any order: a call is held, looks at its
--   channel, hangs up, is answered, or the gateway shuts down.
-- Actions models actions. Limits is the RateLimiter of proxy.rs, Idempotency its claims of keys, Exec the
--   command line and the capped read of exec.rs, with the run of a command in Exec/Run and the programs it
--   looks for in Exec/Lookup, Dispatch the path of a call in mod.rs: arguments, key, limiter, action, record.
--   Upstreams and runners are functions by name. What other calls do to the database between a look-up
--   and a claim, and while an action runs, are functions in Surroundings, so each interleaving is an
--   argument of the theorems. An action is a function of its inputs: one that never returns is
--   not modelled.
-- Mcp models mcp.rs. Mcp/Handler is handle_mcp, a whole request from its authentication over the
--   negotiated revision to the reply, with the replies in Mcp/Replies; Mcp/Call is one tool call
--   (run_call) over Policy, Approval and Actions; with them goes Gateway::log of lib.rs. A Course says
--   what meets one call: its identifier, when it looks at its channel, what happens to the queue while
--   it is held, and what surrounds its action. The parser of JSON, base64 and the header test are the
--   record Outside.
-- Protocol models protocol.rs: negotiate, which finds the revision of a request and checks its headers,
--   and the stamping of results (finish, cacheable).
-- Gateway models lib.rs: the start (build, with ActionEngine::build of actions/mod.rs and the map of
--   upstreams), the status that the gateway announces over a run; Gateway/Shell is what a shell drives
--   (fire, recent_requests, recent_calls, catalog).
-- Redact models redact.rs, what of arguments and results is written down.
-- Config models config.rs: the tools, with the check of a call's arguments and the derived schema in
--   Config/Arguments and the shown description in Config/Description; Config/Settings is a whole
--   configuration, Config/Validate its validation, Config/Environment what environment variables change
--   and what goes back to the file, Config/Load the way from a file to a configuration (load), Config/Commands
--   the search for a command (find_command_in, resolve_command). Decision is the enum of decisions.
-- Scripts models scripts.rs: interpreters and names, the review with its rules (Scripts/Rules,
--   Scripts/Review), and the files (Scripts/Files), over a Disk that lists the texts and has a function
--   for what links resolve to. The directory that save creates is taken to be there.
-- Pack models pack.rs: the check, the import (Pack/Merge over Pack/Place), the export
--   and the missing files (Pack/Export).
-- Publish models publish.rs: what a configuration exposes, the processes that are launched
--   (Publish/Launch) and the Publisher, whose Steps (a start, a line that a process says, a look at the
--   state, a stop) come in any order.
-- Upstreams models upstreams/http.rs: the filling of templates and the escaping of path segments in
--   Upstreams/Http, the request of a call and its answer in Upstreams/Http/Calls.
-- Store models store.rs: one record Db with a list for each table, one function for each method, in Rules,
--   Tokens, Pending, Calls, Requests and Meta. Store/Ops lists the writing methods as one vocabulary and
--   runs histories of them; Store/Access is an abstract
--   state of access (rules, taken ids, active keys). SQL is read as what it does to the rows; a statement
--   that the engine refuses leaves the database as it was. The two
--   statements of issue_token are one write here; in the code the second can fail alone.
-- Json models the values of serde_json with objects in the order of their keys. Base has what all share.
-- Tests applies each theorem at a concrete input.
--
-- Representation. Numbers are natural numbers; a 64-bit hash wraps around by a remainder. Times are
-- seconds in the store and milliseconds in the limiter and the queue; a difference of times stops at zero
-- as duration_since does. Texts are strings whose length is that of their UTF-8. Error messages are
-- constructors that carry what the message names. Each function recurses on a list, a text or an object
-- that the source reads from front to back, so that no theorem is about a run that is cut off. Two
-- counters bound recursions: `decimal` of Base/Texts writes 20 digits at most, enough for any 64-bit
-- number, and the trimming of a scheme is repeated as often as the text is long.
--
-- Not modelled: files, processes, sockets, timers and SQLite's own machinery, which are I/O and stand in
-- the theorems as arguments; the desktop and headless shells, which are glue; MCP upstreams, which are
-- clients over the network; the texts of client configurations and archives (connect.rs, bundle.rs); the
-- spelling of commands on Windows.
pub mod Base
pub mod Decision
pub mod Store
pub mod Json
pub mod Config
pub mod Secrets
pub mod Tokens
pub mod Auth
pub mod Policy
pub mod Actions
pub mod Approval
pub mod Redact
pub mod Mcp
pub mod Gateway
pub mod Tests
pub mod Protocol
pub mod Scripts
pub mod Upstreams
pub mod Publish
pub mod Pack
