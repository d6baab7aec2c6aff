-- ===== src/Handler/Creation.antt =====
-- pkg/gossip/handler.go: newHandler, which connects to the backend node, takes its progress and makes
-- the state of the handler. The dial and the first reply of the backend are arguments.
pub mod Ready
mod Tests
use sonicpeer.Base.{ℕ, ◌*◌, Bool, false, [], Option, none, some, if◌then◌else◌, ◌==◌}
use sonicpeer.Backend.{Reply, FetchError, BackendClient, init, get_epoch}
use sonicpeer.Config.{Config}
use sonicpeer.Env.{Env, Makers}
use sonicpeer.Handler.{Handler}
use sonicpeer.PeerSet.{new_peer_set}
use sonicpeer.Topology.{new_connection_advisor}

-- `handlerConfig`, with the answer of `localEndPointSource`, and whether there is a hook
pub record HandlerConfig (e : Env) : Type 0 where
  pub network_id : ℕ
  pub config : Config
  pub genesis : ℕ
  pub local_id : ℕ
  pub local_end_point : Option e.Node
  pub has_new_txs_hook : Bool

-- The errors of newHandler: of newBackendClient, of Init, and of the caches.
pub data CreationError : Type 0 where
  dial_failed : ℕ → CreationError
  init_failed : FetchError → CreationError
  cache_failed : CreationError

pub data Created (e : Env) : Type 0 where
  made : Handler e → Created e
  no_handler : CreationError → Created e

-- `maxPeerInfoAge` of NewConnectionAdvisor
abbrev pub max_peer_info_age : ℕ
max_peer_info_age = 60 * 1000000000

module _ {e : Env} (makers : Makers e) where
  -- The struct literal of newHandler
  unfoldable pub new_state : HandlerConfig e → BackendClient → e.Lru → e.Lru → Handler e
  new_state c backend txs events = record {
    network_id = c.network_id;
    genesis = c.genesis;
    max_peers = 0;
    peers = new_peer_set;
    msg_semaphore = makers.new_semaphore c.config.protocol.msgs_semaphore_limit;
    connection_advisor = new_connection_advisor c.local_id max_peer_info_age;
    discovered_nodes = [];
    local_end_point = c.local_end_point;
    has_new_txs_hook = c.has_new_txs_hook;
    min_gas_price = c.config.min_gas_price;
    backend = backend;
    tx_hash_cache = txs;
    event_id_cache = events;
    tracked_epoch = if get_epoch backend == 0 then 0 else get_epoch backend;
    stale_grace_period = c.config.protocol.peer_stale_epoch_grace_period;
  }

  -- `newHandler`, where `dial` is the error of newBackendClient
  unfoldable pub new_handler : HandlerConfig e → Option ℕ → Reply → Created e
  unfolding new_state
  new_handler c (some x) reply = no_handler (dial_failed x)
  new_handler c none reply =
      let (backend, err) = init e reply (record { progress = none }) in
      elim err [
        | some x ↦ no_handler (init_failed x)
        | none ↦ elim (makers.new_lru (4 * 1024 * 1024) 4096) [
          | none ↦ no_handler cache_failed
          | some txs ↦ elim (makers.new_lru (4 * 1024 * 1024) 4096) [
            | none ↦ no_handler cache_failed
            | some events ↦ made (new_state c backend txs events)
          ]
        ]
      ]
