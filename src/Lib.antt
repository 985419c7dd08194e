-- ===== src/Lib.antt =====
-- A model of storage-core, the C++ service that keeps the ledger of device events: a chain of
-- hashed blocks, stored as one JSON line for each block, extended through one writer thread, read
-- over HTTP and streamed to WebSocket clients.
--
-- Parts and files (paths from the repository's root):
--   Block      storage-core/include/block.hpp: EventPayload, Block, compute_hash, now_rfc3339,
--              make_block, genesis. Clock writes out gmtime_r and strftime for the one format used.
--   Chain      storage-core/include/chain.hpp and src/chain.cpp: a chain is a list of blocks.
--   Storage    storage-core/src/storage.cpp: the ledger file is a list of bytes with the error
--              state of its stream; what the disk takes of a write is an argument.
--   Queue      WriteQueue of storage-core/src/writer.cpp; Queue.History is any interleaving of calls,
--              Queue.Monitor who sleeps on its condition variables.
--   Broadcast  storage-core/src/broadcast.cpp: Subscriber is one bounded buffer, Publish the list of
--              weak pointers over a store of shared subscriptions.
--   Writer     writer_loop of storage-core/src/writer.cpp over the state that it shares (AppState of
--              storage-core/include/server.hpp) and the log that it owns.
--   Server     storage-core/src/server.cpp: a handler is a function from the request and the shared
--              state to a response or an exception; Handle is ServerHandle; Routes is
--              install_routes, with the logger and the exception handler; Serve is serve.
--   Feed       storage-core/src/ws.cpp: Frames is what a client is sent and the loop that sends it,
--              Waiting how its thread waits in Subscription::next and is woken, Defs the
--              connections (WsServer); CatchUp and Reader are a client that follows what
--              storage-core/include/ws.hpp says of the wire format, for which there is no C++ code.
--   Startup    run of storage-core/src/main.cpp, up to the start of the writer thread.
--   System     the writer of storage-core/src/writer.cpp, one critical section or call at a time,
--              among the handlers of src/server.cpp and the connections of src/ws.cpp, whose
--              buffers Buffers and Clients compare with the chain, and what they are handed
--              Handed, Placed and Replay; ReadBack is about what a caller reads after its POST, and
--              Audit about the answer of GET /verify.
--   Locks      the mutexes of all these files, and in which order each method locks them.
--   Process    run and main of storage-core/src/main.cpp from there to the exit code.
--   Signals    SignalWaiter of storage-core/src/signals.cpp, step by step.
--   Config, Log, Error  the headers of those names under storage-core/include.
--   Json       nlohmann::json and SHA-256, which the code calls: a record of operations (Library)
--              with their documented laws (Laws), and a small library that keeps them (Sample).
--   Prelude    names and lemmas that the parts share: lists, results, bytes, decimal numerals.
--   Examples   each property at concrete blocks, logs, queues and requests.
--
-- How the parts meet: POST /events validates its body and pushes a request on the write queue; the
-- writer pops it, makes the next block from the tail of the chain, appends it to the file, adds it
-- to the chain, publishes it to the subscriptions and keeps the promise of the handler. GET /blocks
-- and GET /verify read the chain. A pump takes the blocks of one subscription to one client. The
-- start makes the state from the file; a signal calls ServerHandle::stop, on which a serve that
-- listens returns, and run winds the threads down.
--
-- Conventions: a method that locks a mutex is one function, so a history of calls is one order of
-- the critical sections. A thread that waits on a condition variable is the result `none` of the
-- call, as is undefined behaviour of Subscription::push, Chain::latest and what calls them; each
-- file says which. A thrown exception is the error of a Result. Bytes are numbers; `std::size_t` and
-- `std::uint64_t` are natural numbers with `% 2 ^ 64` where the code adds or subtracts and a wrap
-- can be reached. The only fuel is in the decimal printer, which gets one round more than the number.
--
-- Not modelled: the lines that run and the writer log, the socket option of serve, the inside of
-- cpp-httplib and of the other copies of projects under storage-core/third_party (how a route is
-- found, and what the library makes of a response with no status or of a request for ranges, are
-- parameters with their documented laws, HttpLaws), the memory that `std::bad_alloc`
-- is about, and the services backend-api, frontend and auditor, which are other programs. In System
-- a thread that waits has no step, and time passes only where a step asks the clock.
pub mod Prelude
pub mod Json
pub mod Block
pub mod Chain
pub mod Error
pub mod Locks
pub mod Log
pub mod Config
pub mod Queue
pub mod Broadcast
pub mod Storage
pub mod Writer
pub mod Server
pub mod Startup
pub mod System
pub mod Process
pub mod Feed
pub mod Signals
pub mod Examples
