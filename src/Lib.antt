-- ===== src/Lib.antt =====
-- mcpway connects MCP servers that talk over one transport with clients that talk over another,
-- discovers the servers that other tools are configured with, and calls their tools. This library
-- models the parts that keep state or decide something.
--
-- The parts and how they work together:
-- * Runtime (rust/src/types.rs, rust/src/runtime/store.rs, mod.rs and prompt.rs): the command-line
--   arguments, the environment and the headers of a child, global and by session. `update_global`,
--   `update_session` and `get_effective` are the functions of `RuntimeArgsStore`; Runtime/Prompt is
--   the loop that reads updates from the terminal.
-- * Admin (rust/src/runtime/admin.rs): the HTTP interface for runtime updates. Access is about its
--   authorization, Metrics about its counters.
-- * Reliability (rust/src/transport/reliability.rs): `backoff_delay`, the circuit breaker and
--   `run_with_retry`. Times are numbers of nanoseconds, given by parameters.
-- * SessionCounter (rust/src/support/session_access_counter.rs): `inc` and `dec`, which arm and
--   stop the timers of idle sessions. `fire` is the end of a timer's sleep.
-- * StreamableHttp (rust/src/gateways/stdio_to_streamable_http.rs): Session has the requests that
--   wait for a child (`request`, `start_routing`), Manager the `SessionManager`, which uses the
--   counter and the runtime store, Handlers the handlers of POST, GET and DELETE, Updates the task
--   that applies runtime updates, Stateless `handle_stateless_request`, Message the messages.
--   Session/Request is about what a request leaves in its session, Handlers/Post about the ways that
--   a POST can go.
-- * SseToStdio (rust/src/gateways/sse_to_stdio.rs): the loop of `run` that sends requests to an SSE
--   server, by `run_with_retry` of Reliability, and prints the responses, and the task that prints the
--   events of the server.
-- * StdioToWs and StdioToGrpc (rust/src/gateways/stdio_to_ws.rs, stdio_to_grpc.rs): one child for
--   many clients. Ids and Routing are about the prefixed ids and who gets what, Streams compares
--   the two gateways event by event, Numbers is about the envelopes of gRPC.
-- * StdioToSse (rust/src/gateways/stdio_to_sse.rs): one child for many event streams; Sessions is
--   about who may post and who gets what.
-- * Config (rust/src/config.rs): Run is `parse_config_from`, Connect `parse_connect_config_from`,
--   Commands the other commands and their choice; Flags and Headers are about the values that are
--   read from texts, Accepted and Modes about what is accepted.
-- * Connect (rust/src/connect.rs): what `connect` does with its configuration, with the servers of
--   Discovery/Search/Registry. Modes is about `run`, Wrapper about saved commands, Names about the
--   names of files.
-- * Generator (rust/src/generator/definition.rs and normalize.rs): definitions, names and bindings;
--   Templates joins it with the `resolve_env_template_value` of Connect.
-- * ToolApi (rust/src/tool_api): Schema has the defaults and the required keys of schema.rs, Client
--   and Client/Catalog the `ToolClient` of client.rs.
-- * Discovery (rust/src/discovery/mod.rs): `discover` merges what the sources found, Search is
--   `apply_search`, Search/Registry the `resolve_server` of registry.rs.
--   Search/Filters, Among and Order are about what a search finds and how it stands.
-- * Sources (rust/src/discovery/sources): the files of Claude, Cursor, Windsurf, VS Code and
--   Nodecode, which differ in a `Format` of Formats; Collected counts what becomes of the entries,
--   Comments is `strip_jsonc_comments`.
-- * Logs (rust/src/logs.rs): the lines that `print_recent_lines` prints.
-- * Json is `serde_json::Value`, with objects in key order. Base has the shared names, ordered
--   dictionaries for the maps of the standard library, and text functions.
--
-- Code behind a lock is one function of the state; where a handler gives up the lock, what other
-- tasks do between is a parameter (`stateful_delete`) or a sequence of events (Session/Routing). A POST
-- is one step: what its child writes while it waits is in it, other requests meanwhile are not.
-- Parameters also stand for the child processes, the network, the parser and the printer of JSON,
-- the clock, the options that `clap` finds and the files that are read. The loops are structural:
-- `run_from` counts the attempts that are left, which `run_with_retry` starts at one more than the
-- retries, and `read_lines` and `prompt_loop` go through the lines that are read. The recursion into
-- schemas finds the field `properties` field by field, which is where it is found by name. The loops
-- over names have fuel: joining marks has as many rounds as the name has characters (Connect/Names
-- proves that enough), and the search for a free variable as many as there are names taken
-- (Generator/Free proves that enough).
--
-- Not modelled: the declarations of the options, which are calls of `clap`, the help and the banner;
-- the gateways that are glue between two network libraries; the start of the administration server
-- and its text metrics, the web server, OAuth, the pool of connections, the files of artifacts, and
-- the configurations of Codex (TOML) and OpenCode; in the gateways the routers, the health handlers
-- and the server set-up, and in
-- the Streamable HTTP gateway the stateless POST wrapper, the buffer of the notification stream and the
-- messages of a child that are lost where its receiver lags.
pub mod Admin
pub mod Base
pub mod Json
pub mod Runtime
pub mod Reliability
pub mod SessionCounter
pub mod StreamableHttp
pub mod ToolApi
pub mod Discovery
pub mod SseToStdio
pub mod Logs
pub mod StdioToWs
pub mod StdioToSse
pub mod Sources
pub mod Generator
pub mod Connect
pub mod Config
pub mod StdioToGrpc
