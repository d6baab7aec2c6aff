-- ===== src/Lib.antt =====
-- sonicpeer: a peer of the Sonic gossip network that collects transactions and hands them to a hook,
-- without a chain of its own. It registers its peers, keeps for each what the peer is known to have,
-- asks for announced transactions, and trusts a backend node for the current epoch.
--
-- The modules, each with the code that it is about:
--
--   Protocol    pkg/gossip/protocol.go: the codes of messages and errors with their texts, the versions
--               and the wire types
--   Known       pkg/gossip/peer.go: txCache and eventCache, bounded sets that forget the oldest hash
--   Peer        pkg/gossip/peer.go: the peer. Peer.Outbox has its queue of broadcasts,
--               Peer.Traffic the calls and the loop that share it, Peer.Async the sends that fill it,
--               Peer.Sync the sends that wait for the connection, Peer.Request the requests, Peer.Split
--               the batches, Peer.Handshake the handshake and its two goroutines
--   PeerSet     pkg/gossip/peerset.go: the registered peers
--   Topology    pkg/gossip/topology/connection_advisor.go: what the peers report as their own peers,
--               and the suggestions drawn from it (Suggested, Redundant, Largest)
--   Backend     pkg/gossip/backend.go: the client of the trusted node
--   Handler     pkg/gossip/handler.go: limits on messages (Limits), the check for stale peers
--               (Staleness), what is done with announcements, transactions and events (Gossip), the
--               dispatch of messages (Messages) and the messages that are handled at the same time
--               (Messages.InFlight), the admission of peers and their sessions (Admission), the
--               broadcasts (Broadcast) and how many peers get a whole message (Aggressiveness), the
--               ticks that look for new peers (Collection), the candidates that they hand to the
--               dialer (Dialing), the file of known nodes (Persistence), and newHandler (Creation)
--   Config      pkg/gossip/config.go: the configuration, its defaults and Validate
--   Lifecycle   pkg/gossip/handler.go and service.go: Start, Stop, the loops and the Run callback, as
--               steps of a transition system
--   Service     pkg/gossip/service.go and api.go: the way of a transaction to a subscriber, and
--               newService (Service.Creation)
--   Sentry      pkg/gossip/sentry.go: NewSentry
--   Launcher    cmd/app/launcher.go: the lists of the command line, and the wait for the end.
--               Launcher.App has cmd/main.go, cmd/app/app.go and the rest of launcher.go: the program
--               from its command line to its end
--   Sidecar     sidecar/main.go: which kind of node announces a transaction first
--   Env         what the code takes from packages outside the repository, as the fields of a record
--   Base        helpers: tests on numbers, lists, sets, dictionaries and 64-bit integers (Base.Int64)
--
-- A session of a peer is Handler.Admission.handle: it registers the peer in the PeerSet after
-- Peer.Handshake, and gives each message to Handler.Messages, which marks hashes in the caches (Known)
-- of the peer, asks for transactions (Peer.Request) and reports to Topology. The broadcasts read the
-- caches of all registered peers and fill their queues (Peer.Async).
--
-- The launcher splits its options into lists and gives them to Sentry.new_sentry, which makes the
-- node and the service (Service.Creation), and with it Handler.Creation.new_handler. The nodes that
-- the ticks suggest and those of the file go through Handler.Dialing to the dialer. The service
-- puts each transaction that Handler.Gossip hands to the hook into the channel of Service;
-- Lifecycle has the order in which the parts start, serve connections and stop. The sidecar is a
-- program of its own.
--
-- A method of a Go type is a function from the state of its receiver to the state afterwards, with
-- its result; the snake-case name is the name of the method. A hash is the number that its bytes
-- spell. A panic is `none`. Code outside the repository is a field of `Env`, and what the theorems
-- rely on is in `SemaphoreLaws`, `MakersLaws`, `LimitLaws`, `LruLaws` and, for what two nodes that
-- run this code send each other, in `WireLaws`; Env.Sample and Env.Wire have an instance of each.
-- Where a `select` may take several cases, or a call waits, an argument says how it ends. A method
-- that holds a lock is one step; runs of such steps, in any order, are lists of calls.
--
-- The outer loop of Peer.Split.split has the number of items as its fuel, and so has the loop of
-- Peer.Request.request: each round takes one item at least. The loop of
-- Handler.Collection.suggest has 32 rounds, as in the code. Every other loop runs over a list.
--
-- Integers are natural numbers where the code adds what it has counted; the decision on broadcasts,
-- which multiplies times by sizes, has its 64 bits and their overflow written out.
--
-- The life of the node, in which goroutines wait for each other, is a step relation over the state of the
-- channels and wait groups; its theorems speak of every state that is reached. A step of a remote peer is
-- told apart from one of the node (Lifecycle.Stops.unaided): a handshake fails by itself at its timeout,
-- and handleMsg returns once Stop has disconnected the peer, but otherwise a session goes on for as
-- long as its connection does.
--
-- Not modelled: metrics, logs and the getters of the RPC, which only pass values on; the declarations
-- of flags, and the options that the launcher passes on to the metrics; config, a copy of the package
-- config of the Sonic repository, of which the program imports the original; the timers of the
-- handler, whose ticks are calls here; what go-ethereum does with the node, the protocols and the
-- candidates that it is given.
pub mod Backend
pub mod Base
pub mod Config
pub mod Env
pub mod Handler
pub mod Launcher
pub mod Lifecycle
pub mod Known
pub mod Peer
pub mod PeerSet
pub mod Protocol
pub mod Sentry
pub mod Service
pub mod Sidecar
pub mod Topology
