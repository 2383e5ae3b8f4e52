-- ===== src/Lib.antt =====
-- A model of the core of GkiPass, a tunnel service with a client (client/) and a control plane
-- (plane/), and the theorems about it.
--
-- The client's streams share one connection through the multiplex layer, client/internal/multiplex:
-- a session reads frames, hands them to its streams, and writes frames for them. Multiplex/Frame
-- models frame.go: constructors, getters, Validate, and WriteTo and ReadFrom on a list of bytes with
-- a writer that may break after a number of bytes. Multiplex/Ring models RingBuffer of stream.go,
-- Multiplex/Stream the streams of stream.go, Multiplex/Link writeFrame of session.go, and
-- Multiplex/Session the sessions of session.go. Recovery/Breaker models
-- client/internal/recovery/circuit_breaker.go: one breaker, and in Recovery/Breaker/Registry the
-- table of breakers that the recovery manager keeps.
--
-- Multiplex/Manager models client/internal/multiplex/manager.go, the table of sessions by key.
--
-- Traffic/Bucket models client/internal/traffic/bucket.go, the buckets that limit rates, where the
-- floating-point product of a time and a rate is a parameter, and Traffic/Queue queue.go beside it,
-- the queue of packets by priority, with the functions of container/heap that it calls. Rules models
-- client/internal/rules: Rules/Address, Rules/Text and Rules/Match say which traffic a rule matches,
-- Rules/Order models the rule sets of types.go, and Rules/Manager the manager of manager.go with its
-- directory, where encoding/json is a parameter. ClientPorts models client/internal/ports/manager.go,
-- where what the system answers about a port is an argument. Cache models client/internal/cache: the
-- operations on a shard, with its list as a store of pointers, and three of its policies.
-- Relay/Balance models client/internal/relay/load_balancer.go, the choice of a backend. Of the
-- control plane, Plane/Ports models plane/internal/service/port_manager.go, the ports of tunnels, and
-- Plane/Login models plane/internal/api/middleware/rate_limit.go, the limiter of logins.
--
-- Names follow the source in another spelling: NewDataFrame is new_data_frame, handleFrame of a
-- session is handle_frame, and handleFrame of a stream is handle_stream_frame. Every operation takes
-- the state and gives the new one, and a time comes as an argument. A lock makes an operation one
-- step, so each operation runs alone. Machine integers are natural numbers with their wrap-around
-- written out; a signed 64-bit window is its bit pattern. A panic is a value: none, or panic.
-- What the waits of Write end with, in their order, is an argument, and of the stream only the window
-- changes meanwhile; any other wait, for a signal or for room in a channel, is a result of the
-- operation. Where Go's select may choose between room in the accept channel and a session that is
-- cancelled, the model takes the room. Base holds what the modules share: lists, maps as association
-- lists, and words of four bytes.
--
-- Fuel: between two waits write_loop takes three rounds, since a chunk uses up the bytes or the
-- window, and generate_from takes two, since after the counter is set back the next id is small
-- enough. up and down of the heap take as many as there are places, since each round moves to a
-- smaller or a greater place. The loops of ensureCapacity and of GetAvailablePorts need not end:
-- they take a number of rounds, and running out is a result of its own. All other loops are over
-- lists or numbers.
--
-- Not modelled: the goroutines around the operations, the deadlines, the logs and the statistics
-- that are only read; and of the rest of the program the services over the database, the HTTP and
-- socket handlers, certificates, configuration and probes, which are I/O around libraries, and the
-- pools, heartbeats and retries of the client.
pub mod Base
pub mod Recovery
pub mod Multiplex
pub mod Plane
pub mod Traffic
pub mod Rules
pub mod ClientPorts
pub mod Cache
pub mod Relay
