-- ===== src/Lib.antt =====
-- remote-devbox-mcp: a development machine opened to remote MCP clients. Traffic enters at the
-- ingress proxy, which frames, authorizes and forwards HTTP requests to local services by port;
-- the gateway is one of these services and gives clients sessions on local MCP servers.
--
-- Which file models what:
-- - Base: texts as lists of byte or character codes, dictionaries in insertion order, decimals.
-- - Profiles (home/rdm/profiles.py): the records, `validate` with a problem as the number of its
--   rule, and the guard of `write_raw`. Files, paths and `shlex.split` are the parameter `Host`; a
--   command whose quotes do not close, on which `shlex.split` raises, is outside.
-- - Ports (home/rdm/ports.py): `PortPolicy`, `is_port_allowed`, `compute_port_policy`, and the
--   services that a profile gets. Sets are sorted lists without duplicates.
-- - Proxy/Framing (home/rdm/proxy/framing.py): `parse_head`, `validate_head`, `validate_request`,
--   `hop_by_hop`; a raised `FramingRejected` is a value of `Parsed`.
-- - Proxy/Router, Proxy/Auth, Proxy/Upstream: router.py, auth.py and upstream.py of home/rdm/proxy.
--   SHA-256 is a parameter; what is said of it is that the expected token has no second preimage.
-- - Proxy/Server (home/rdm/proxy/server.py): a socket is the list of what `recv` will deliver.
--   Stream reads heads and bodies from it, Access is `_dispatch` and one turn of `_run`; what is
--   sent to a service afterwards is the decision `forward` or `tunnel`.
-- - Gateway/Policy (home/rdm/gateway/policy.py): paths inside the project, names of exposed tools,
--   the decision on a call. Walks says what a path means, apart from the code.
-- - Gateway/Manager (`SessionManager` of home/rdm/gateway/sessions.py): the blocks under the lock
--   are operations, and the steps of its threads are a relation.
-- - Gateway/Session (`Session` of the same file, with the call of home/rdm/gateway/dispatch.py): a
--   call is cut where it waits for the child. The time of the last use is left out.
-- - Gateway/Content: results of calls, capped (`_cap_content` of home/rdm/gateway/server.py),
--   stripped and classified (home/rdm/gateway/dispatch.py).
-- - Gateway/Server (`GatewayServer` and `_Handler` of home/rdm/gateway/server.py): a handler takes a
--   request, with its body decoded, and the server's state to a reply and the next state, a call of a
--   tool with what it changes in the session included.
-- - Gateway/Upstream (`UpstreamChild` of home/rdm/gateway/upstream.py): the pending requests of a
--   child, and the steps of the threads on them.
-- - Gateway/Snapshot (home/rdm/gateway/snapshot.py): `build`, `save`, `load`, `verify` and
--   `load_verified` over decoded JSON; SHA-256 of a description is a parameter.
-- - Jobs (home/rdm/events/jobs.py): `correlate` and `stall_alarm` over a list of events.
-- - Audit (home/rdm/runner/audit.py, home/rdm/audit_verify.py): the hash chain of the runner's log,
--   with rotation and failed writes, and its check, which reads the lines with `splitlines()`; SHA-256
--   of a line is a parameter.
-- - EnvFile (home/rdm/envfile.py): the lines, the positions of the keys and the pending values, from
--   the decoded text of the file.
-- - Watchdog (home/rdm/watchdog.py): a round of `run` as a function of what its calls answer and of
--   which of them raise; the calls are kept in their order.
-- - Cockpit (home/rdm/ui): Auth is auth.py with the tokens of a request; Server and Handlers are
--   `CockpitServer` and `_Handler` of server.py with `ActionQueue` of control.py, a request and the
--   state to a reply and the next state; Events is `reconcile_open_actions` over the lines that
--   `read_events` reads, with what the log reads back of an emitted event as a parameter.
--
-- How they interact: the server asks Framing for a decision on each head, Router and Auth and Ports
-- for the upstream, and reads the body that Framing declared. A session asks Policy for each call,
-- and Manager holds the sessions. The gateway's Server asks Manager for the session of a request,
-- and caps the result of its call; its children are those of a verified snapshot. Ports computes the
-- policy from a profile that Profiles accepted.
--
-- Fuel: reading a body has one round for each missing byte and one more; reading a head has as
-- many rounds as the head limit has bytes, and two more; looking for a free tool name has one round
-- for each registered name and one more; capping a result has one round for each item and each
-- character of its texts, and one more.
--
-- Not modelled: responses and how they are relayed, HTML rewriting, the websocket tunnel, the
-- processes of the gateway's children and the event loop of its streams, event taps and logs (file
-- and socket I/O so far); the payloads, the event stream and the static files of the cockpit, the
-- command line, process management and the job bridge; the vendored RPC server. JSON
-- encoding enters as the length of the encoded text, JSON decoding as decoded values.

pub mod Base
pub mod Profiles
pub mod Ports
pub mod Proxy
pub mod Gateway
pub mod Jobs
pub mod Watchdog
pub mod Cockpit
pub mod Audit
pub mod EnvFile
