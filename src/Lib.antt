-- ===== src/Lib.antt =====
-- Verification of mongodb-core, the low level MongoDB driver for Node.js (lib/).
--
-- The driver watches the servers of a deployment. Each check of a server gives a server description
-- (lib/sdam/server_description.js); the topology (lib/sdam/topology.js) folds it into an immutable
-- topology description (lib/sdam/topology_description.js), emits monitoring events, and brings the
-- servers that it watches into step. Operations pick servers with selectors
-- (lib/sdam/server_selectors.js) for a read preference (lib/topologies/read_preference.js). Client
-- sessions (lib/sessions.js) borrow server sessions from a pool, keep one transaction
-- (lib/transactions.js), put the session's keys on commands, and end transactions with a command
-- that is tried again once. Requests and messages are encoded as bytes (lib/connection/commands.js,
-- lib/connection/msg.js). A pool (lib/connection/pool.js) queues operations, writes them to its
-- connections, compressed if that was agreed on (lib/wireprotocol/compression.js), which ends after
-- the call, and gives the replies to their callbacks; a connection (lib/connection/connection.js)
-- cuts the bytes of its socket into the messages that hold those replies.
--
-- Files and code:
-- - Prelude and its children: Boolean tests, lists, insertion-ordered maps (the Map of the
--   language), integers over the native numbers.
-- - Errors: lib/error.js. An error is the record of what the driver reads of it, a throw is a
--   Result.
-- - ReadPreference: lib/topologies/read_preference.js.
-- - Sdam.ServerDescription: lib/sdam/server_description.js; parse_server_type is parseServerType.
-- - Sdam.TopologyDescription: lib/sdam/topology_description.js. The blocks of update are functions
--   on a Draft, the variables that update may change; update_rs_from_primary and its siblings are
--   the functions of the same names. Children: Count, Rs, Invariant, Consistent (the invariant),
--   Primary (answers of primaries), Elections (set version and election), Derived (what the
--   constructor computes), Members (answers of other servers), Failures (the error on record).
-- - Sdam.Topology: lib/sdam/topology.js from the seed list through connect and serverUpdateHandler
--   to updateServers, and resolveClusterTime of lib/topologies/shared.js. Children: Servers (the
--   watched servers), Failures (the error on record), History (sequences of checks).
-- - Sdam.Selecting: selectServers and selectServer of lib/sdam/topology.js; step is one event for a
--   selection that waits. Children: Deadline, Choices (what the selectors return), Watched (the
--   servers handed out), First (changes of the description), Pinning.
-- - Sdam.Writing: command and executeWriteOperation of lib/sdam/topology.js and
--   isRetryableWritesSupported of lib/topologies/shared.js; perform is a call of a user. Children:
--   Retries.
-- - Sdam.Selectors: lib/sdam/server_selectors.js. Children: Window, Filters, Staleness, Modes,
--   Reads.
-- - Transactions: lib/transactions.js; Laws is about sequences of calls.
-- - Sessions.Pool: ServerSession and ServerSessionPool of lib/sessions.js. Children: Acquire,
--   Release, Sharing.
-- - Sessions.Client: ClientSession, applySession and updateSessionFromResponse of lib/sessions.js.
--   Children: Laws, Numbers, Starting.
-- - Sessions.Ending: endTransaction and endSession of lib/sessions.js. Its argument at_once says
--   whether a server is selected for an abort without a wait. Children: States, Labels, Closing,
--   Final (the calls after endSession).
-- - Sessions.Retrying: withTransaction, attemptTransaction and attemptTransactionCommit of
--   lib/sessions.js. Children: Termination, Outcomes.
-- - Wire.Bytes, Wire.Requests: the buffers of lib/connection/commands.js and parseHeader of
--   lib/wireprotocol/shared.js; Headers is about reading them back.
-- - Wire.Msg: lib/connection/msg.js; Sections is about reading messages back.
-- - Wire.Compression: serializeCommand of lib/connection/pool.js, processMessage of
--   lib/connection/connection.js and lib/wireprotocol/compression.js; Transport is about reading
--   compressed messages back.
-- - Connection.Framing: dataHandler of lib/connection/connection.js; data_handler is one chunk,
--   receive a sequence of chunks. Children: Bounds (the invariant), Slices, Rounds, Chunks (one
--   chunk of a stream), Messages (whole streams), Lost (chunks and sizes at the limits).
-- - Connection.Pool: the state of lib/connection/pool.js and its helpers. Children: Execute
--   (_execute; turn is one round of its loop), Events (connect, write and the callback of its
--   serializeCommand, connectionFailureHandler, attemptReconnect and the callbacks of connect),
--   Messages (messageHandler), Closing (destroy), History (any sequence of these). Execute has
--   Rounds, Order, Chosen, Monitors and Sizes; Events has Failures; Messages has Replies; Closing
--   has Ends; History has Quiet, Keeping, Delivery, Connecting, Dead and Lifecycle.
-- - The Tests modules run the code on examples; Sdam.Examples holds servers and topologies for
--   them.
--
-- Conventions: clocks, random ids, and the comparison of BSON timestamps are arguments. A property
-- that a reply lacks is none. Numbers are unbounded naturals where the code cannot go below zero,
-- and integers elsewhere; round trip times and times are whole numbers of one unit. Loops run over
-- lists, but for five that run on fuel: the attempts of an operation, for which two are enough,
-- since the second does not try again; the retries of withTransaction, for which twice the number
-- of questions to the clock before two minutes are over, plus two, is enough; the parse of a
-- message, whose fuel is the number of its bytes; the rounds of dataHandler, whose fuel is one more
-- than the bytes at hand, since each round but the one that takes up the stub uses up a byte; and
-- the rounds of _execute, whose fuel is one more than the operations that wait, since each round
-- that goes on takes one. A document is given by the bytes that the BSON library makes of it. The
-- connections of a pool are shared objects: they are numbers in the pool's lists and stand in a
-- store. What a pool does to others (callbacks, events, writes, timers, attempts to connect) is its
-- log, in order; a callback does not call the pool back before the operation has ended, and what
-- comes later is the next event of a history. Compressors are arguments; in the pool, the end of a
-- compression is an event of its own, and an operation that is compressed joins the queue then.
-- Events named error have a listener. A read concern has the number of its object, so that what
-- applySession puts on a shared object is seen in all options of the session.
--
-- Not modelled: sockets and the handshake (lib/connection/connect.js), of the pool the calls of
-- unref, auth, logout and reset, domains and the events of command monitoring, replies to the older
-- requests, command construction (lib/wireprotocol), authentication (lib/auth), cursors, the
-- connection string parser, the older topologies (lib/topologies), the monitor's timers, and of the
-- topology the calls of close, auth and logout. A selection takes the topology at each event as it
-- then is. In endTransaction nothing else happens to the session between a command and its reply.
-- Options that are present with the value undefined are not told apart from missing ones.
pub mod Prelude
pub mod Errors
pub mod ReadPreference
pub mod Sdam
pub mod Transactions
pub mod Sessions
pub mod Connection
pub mod Wire
