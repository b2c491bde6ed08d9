-- ===== src/Lib.antt =====
-- mongoproxy, a proxy for MongoDB connections that passes the bytes through and derives metrics and
-- traces from a copy of them: a verification library of its core.
--
-- Each direction of a connection is one task that moves bytes and one that parses and tracks them.
-- `proxy_bytes` (src/main.rs) reads a socket, writes the bytes to the other one, and sends a copy to
-- a bounded channel. `track_messages` (src/main.rs) reads that channel as one stream, parses one
-- message after the other with `MongoMessage::from_reader` (src/mongodb.rs), and hands each to the
-- tracker of the connection (src/tracker.rs), which both directions share. The tracker matches the
-- requests with the responses, updates the metrics, and remembers the traces of cursors.
--
-- Files and what they model:
--   Io.antt and its children: byte streams with failures, `Result`, and the operations of tokio and
--     byteorder that the parsers call (Io/ByteIo.antt) as a record with laws. Io/Bson.antt is the crate
--     async_bson, a record of operations and laws; Io/Bson/Counted.antt is a small format that meets
--     the laws, on which the examples run.
--   Metrics.antt: the Prometheus metrics of src/mongodb.rs and src/tracker.rs as a log of updates.
--   Wire.antt and its children: src/mongodb.rs. Wire/Header.antt is `MsgHeader`, Wire/OpMsg.antt
--     `MsgOpMsg`, Wire/Legacy.antt the other seven kinds, Wire/Message.antt `MongoMessage` with
--     `from_reader` and `extract_message`. A parser is a function of the stream (`Reader`) or of the
--     stream and the metrics (`Action Session`); `rdr.take(n)` is `within` or `limited`.
--     Wire/Dump.antt is `debug_fmt`.
--   Tracker.antt and its children: src/tracker.rs and src/jaeger_tracing.rs. Tracker/State.antt is the
--     state, Tracker/Request.antt `ClientRequest::from`, Tracker/Client.antt `track_client_request`
--     and `maybe_kill_cursors`, Tracker/Server.antt `track_server_response`, Tracker/Server/Observe.antt
--     `observe_server_response_to` (what it counts, described apart: Tracker/Server/Observe/Events.antt),
--     Tracker/Tracing.antt `extract_from_text`. Tracker/Life.antt is the
--     relation of the states that a tracker can come to, Tracker/Cursors.antt the traces of cursors.
--   Proxy.antt and its children: src/main.rs. Proxy/Bytes.antt is `proxy_bytes` over a script of what
--     the sockets and channels do, Proxy/Track.antt `track_messages`, Proxy/Address.antt the texts of
--     addresses, Proxy/Destination.antt src/dstaddr.rs over the answer of getsockopt. Proxy/Open.antt is
--     `handle_connection` up to its tasks, with `lookup_address` and src/appconfig.rs; the tasks behind
--     it are Proxy/Connection.antt, where each step is one await of one task. Proxy/Shared.antt is the
--     lock of the tracker, Proxy/Accept.antt `run_accept_loop`, Proxy/Startup.antt `main`, the router of
--     the admin listener and `init_tracer` of src/jaeger_tracing.rs. Wire/Show.antt is Display.
--     Proxy/Exchange.antt puts the sockets, the tasks, the lock and the tracker together.
--
-- How the tasks interact: a connection (Proxy/Connection.antt) is two directions. The task of a
-- direction reads, writes, sends a copy to its own channel of 32 items and, when its tracker is gone,
-- a notification to the channel of the other one. A tracker task takes items; it ends at the end of its
-- channel, once the senders are dropped with the forwarding tasks (`by_close`), and it may end at any
-- time, which covers its errors and panics (`by_stop`). The forwarding tasks step as long as `try_join!` has no result,
-- the tracker tasks also after that. What a tracker task does with the items it was sent is
-- `track_messages` of them, message by message under the lock (Proxy/Shared.antt), in any order with
-- the other one. So all interleavings of awaits and of locks are covered; two steps are never at once.
--
-- State and errors: a function that changes a tracker gives the changed tracker. An error of
-- std::io is `err`; the model's own `out_of_fuel` is a loop with too little fuel. A panic of the
-- tracker is the result `none`. HashMap is an association list, Vec a list, String its UTF-8 bytes.
-- Times are numbers that the operations are given.
--
-- Fuel: the loops over sections, documents and messages get one more than the items that are left in
-- the stream. Each section takes a byte, each document a byte at least, each message a header of 16
-- bytes, so the fuel is enough on every stream, whatever it holds.
--
-- Integers: lengths of a message are u64 with their wrap-around written out (`body_length`), fields are
-- read with 32 or 64 bits, and signed fields in two's complement. The build has no overflow checks.
--
-- Not modelled: log lines and the logging of documents, the gauges of capacities, the histogram of
-- connect times, derived Debug, the definitions of the command line (what clap makes of it is given),
-- the HTTP server around the router, and the thread that reports spans. The
-- crates tokio, clap, prometheus, rouille, rustracing, rustracing_jaeger and bson are parameters,
-- logs of calls, or steps with the behaviour that tokio documents for its channels.
pub mod Prelude
pub mod Io
pub mod Metrics
pub mod Wire
pub mod Tracker
pub mod Proxy
