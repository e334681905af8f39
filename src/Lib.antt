-- ===== src/Lib.antt =====
-- Parachute agent.
--
-- The host process routes inbound chat messages to the sessions of agent groups. Each session has two
-- SQLite files: the host writes inbound.db, the container that runs the agent writes outbound.db. The
-- host polls outbound.db to deliver what the agent says, and a periodic sweep wakes, retries and kills
-- containers. This library models those parts.
--
-- - PlatformId (src/platform-id.ts): the ids `<channel>:<bot>:<native>`.
-- - Permissions (src/modules/permissions/access.ts and db/): users, roles, memberships, access.
-- - CommandGate (src/command-gate.ts): which slash commands reach the container.
-- - SessionDb (src/db/session-db.ts, src/db/schema.ts): the rows of the two files and the host's
--   statements; ContainerDb (container/agent-runner/src/db/messages-in.ts, messages-out.ts): the
--   container's, on the same rows.
-- - Scheduling (src/modules/scheduling/db.ts, recurrence.ts): task rows of messages_in.
-- - HostSweep (src/host-sweep.ts): one sweep of one session, on the operations of the three above.
-- - Delivery (src/delivery.ts, the guards of src/modules/agent-to-agent/agent-route.ts): the drain of
--   one session's messages_out.
-- - Sessions (src/db/sessions.ts, `resolveSession` of src/session-manager.ts) and Router
--   (src/router.ts, `writeSessionMessage` and `writeOutboundDirect` of src/session-manager.ts): the
--   fan-out of an inbound event, on Sessions, CommandGate and SessionDb.
-- - Channels (src/db/messaging-groups.ts, src/modules/agent-to-agent/db/agent-destinations.ts,
--   src/web/wire-channel.ts): the chats, the agents wired to them, the names an agent has for its chats.
-- - Inbound (src/router.ts, src/db/dropped-messages.ts): the whole of `routeInbound`, on Channels,
--   TrustHint and Router.
-- - SenderGate (src/modules/permissions/index.ts): the hooks of the permissions module in
--   the router, and the answer to the card about a stranger.
-- - ChannelApproval (src/modules/permissions/channel-approval.ts and its table, the answer's handler in
--   index.ts): the card about a chat without agents; an answer goes back to Inbound.
-- - Approvals (src/modules/approvals/primitive.ts): who is asked to approve, and where.
-- - Formatter (container/agent-runner/src/formatter.ts): the prompt made of pending messages.
-- - PollLoop (container/agent-runner/src/poll-loop.ts, destinations.ts, db/session-state.ts): one turn of
--   the container's loop, on ContainerDb and Formatter. What the provider answers is a parameter.
-- - MountSecurity (src/modules/mount-security/index.ts): the mounts a container may get.
-- - StateStore (src/state-sqlite.ts): what the chat adapters keep across restarts: pairs, locks, lists.
-- - TrustHint (src/channels/trust-hint.ts), TelegramPairing (src/channels/telegram-pairing.ts): who
--   is believed to own a chat.
-- - Prelude: lists as tables, texts as lists of character codes; Json: the values of JSON.parse.
--
-- A function of the source has its name in snake case. State is passed: a table is the list of its
-- rows, a Map the list of its entries, and a statement that violates a UNIQUE constraint gives `none`.
-- A throw is `none` of an Option, or `crashed` where it ends the container's process. SQLite, the clock, cron expressions, JSON.parse, the patterns of a
-- wiring, the file system, Docker, the agent's provider and the chat adapters are parameters: fields of
-- the records Clock, Cron, Env, World, Host, Hooks, Reader and Config. The regular expressions of
-- poll-loop.ts are scanners, SQLite's LIKE a matcher. Most loops are structural. `Channels.free_name` takes
-- as fuel the number of destination rows and two, `Inbound.route_inbound` two rounds, `digits` the number
-- and one: Channels.Free, Inbound.Ends and Channels.Names prove that this is enough. The draws of
-- `generateCode` are a list, of which the source takes 50. The two processes, and the polls of one
-- process, are interleaved by the step relations of ContainerDb.Parity and Delivery.Inflight.
-- Timestamps are texts where the code only hands them on, and milliseconds where it computes.
--
-- Not modelled: the web server and its UI, OAuth and secrets, the chat adapters, the MCP tools, the
-- container runner and the migrations, which are I/O or glue over libraries; the text of the approval
-- cards.
pub mod Prelude
pub mod PlatformId
pub mod Permissions
pub mod Json
pub mod CommandGate
pub mod SessionDb
pub mod ContainerDb
pub mod Scheduling
pub mod HostSweep
pub mod Delivery
pub mod MountSecurity
pub mod TrustHint
pub mod Sessions
pub mod Router
pub mod SenderGate
pub mod Approvals
pub mod TelegramPairing
pub mod StateStore
pub mod Channels
pub mod Inbound
pub mod ChannelApproval
pub mod Formatter
pub mod PollLoop
