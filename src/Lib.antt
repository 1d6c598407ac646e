-- ===== src/Lib.antt =====
-- A model of myRedis, an in-memory store that speaks RESP, and the theorems about it.
--
-- The program's parts, and how they interact. The event loop (src/networking/server.cpp) reads the
-- bytes of its clients, cuts commands out of them with the RESP parser (src/resp/resp.cpp, for
-- inline commands with src/parser/parser.cpp), gives each to a command handler
-- (src/commands/command_handler.cpp), and sends the serialized response. The handlers work on the
-- database (src/database/database.cpp), the subscriptions (src/pubsub/pubsub.cpp) and the dump file
-- (src/persistence/persistence.cpp). src/server/main.cpp reads the configuration
-- (src/config/config.cpp), loads the dump and starts the server; src/client/main.cpp is a prompt over
-- the client (src/networking/client.cpp). The length-prefixed protocol (src/protocol/protocol.cpp)
-- stands apart.
--
-- The files. A function of the source has the definition of its name; a method takes the object's
-- state last and returns its result with the new state.
--   Prelude      the shared names: tests, lists, options, 64-bit results, text as character codes
--   Dict         the maps of the source as association lists; Laws and Distinct
--   Database     the maps and the operations on keys; Lists has the lists. Operations, Closure and
--                Invariant have runs of operations, View the abstract value at a key, and Expiry,
--                Counting, Ranges and ListView the operations against it; ExpiryThread the thread
--   Number       std::stoi, std::stoll, std::to_string and std::toupper as the source uses them
--   Parser       src/parser/parser.cpp; Printer has words in double quotes
--   PubSub       src/pubsub/pubsub.cpp; Consistency, Publish and Others have its two indices
--   Socket       the loops that read and write a number of bytes
--   Resp         parsing; Serialize has the responses, Frames and RoundTrip sending and parsing a
--                command, Inline one in quotes, Bounds what parsing consumes
--   Persistence  what a save writes; Crc and Checksum the checksum, Read what a load reads, File the
--                two over a file system; Codec, RoundTrip and Dump writing and reading together,
--                Failure the files that a save leaves; Bits the width of the checksum; Reload,
--                Survival, Restored and Restart the database that a load makes of a saved one
--   Commands     the handlers, with Reply, ListHandlers and PubSubHandlers; Dispatch routes by name,
--                Transactions has MULTI, EXEC, DISCARD and WATCH; Queue has a whole transaction,
--                Watch the check of the watched keys; Traces a command as operations of the
--                database and calls of the subscriptions
--   Protocol     src/protocol/protocol.cpp; RoundTrip has encoding and reading
--   Config       src/config/config.cpp; Files has the files that it reads
--   Server       src/networking/server.cpp; Session has one command, Round and Fuel the loop over a
--                buffer, Guard a client without the password, Exec the transactions over a
--                connection, Traces what a read does, Invariant the server as a state machine,
--                Pipeline requests in one read and Wire their forms; Lifecycle has start, the loop
--                around select, stop and the destructor, Descriptors, Shutdown and Running what they
--                keep
--   Startup      src/server/main.cpp; Ports has the port, Restart a server started from its dump
--   Client       src/networking/client.cpp; Bulk, Lines and Replies have what it shows of the
--                responses; Session has the connection and the prompt of src/client/main.cpp, Quit
--                the lines that end it, Prompt the lines that it sends, Exchange a command's way to
--                the server and back
--   Tests, in a folder, runs the part's definitions at small inputs
--
-- Bounds and fuel. Times are nanoseconds of the steady clock as natural numbers, and a command sees
-- one instant (TTL two). A result of type int or int64_t is an integer that is reduced to its width
-- where the source converts; texts are lists of bytes. Loops that the source ends by a shrinking
-- buffer run on its length as fuel: each round takes a byte at least. The checksum's loop runs on the
-- bytes that remain.
--
-- Parameters. What the operating system answers is an argument: which sends succeed, what a read
-- yields, which calls of a save succeed and how much of its bytes gets through, which descriptors
-- are ready, what `socket`, `bind`, `listen` and `connect` return, the instants. What `atoi`
-- returns for a number beyond an int, C leaves open.
--
-- A read of the server or of the client yields 4096 bytes at most. The model lets a read of the
-- server yield any number, so a theorem about each read covers those; the one that follows a line
-- from the client to the server and back bounds it.
--
-- Not modelled: threads and locks (every operation holds its lock throughout, so it is one step, and
-- a scan of the expiry thread falls between two rounds of the event loop), a signal in the middle of
-- a round (it comes while the loop waits in select), log output and banners, and the wrappers of the
-- system's calls in include/platform/platform.h, whose results are parameters. The order in which a
-- hash map is walked is the order of its association list.
pub mod Prelude
pub mod Dict
pub mod Database
pub mod Number
pub mod Parser
pub mod PubSub
pub mod Socket
pub mod Resp
pub mod Persistence
pub mod Commands
pub mod Protocol
pub mod Config
pub mod Server
pub mod Startup
pub mod Client
