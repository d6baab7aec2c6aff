-- ===== src/Handler.antt =====
-- pkg/gossip/handler.go: the state of the handler. Its children have its parts: the limits on a message
-- (Limits), the check for stale peers (Staleness), what it does with announcements and transactions
-- (Gossip), the dispatch of messages (Messages), the admission of peers and their sessions (Admission),
-- the broadcasts (Broadcast, Aggressiveness), the ticks that look for new peers (Collection), the
-- candidates for the dialer (Dialing), newHandler (Creation) and the file
-- of known nodes (Persistence).
pub mod Limits
pub mod Staleness
pub mod Gossip
pub mod Messages
pub mod Admission
pub mod Aggressiveness
pub mod Broadcast
pub mod Persistence
pub mod Collection
pub mod Creation
pub mod Dialing
pub mod Sample
mod Tests
use sonicpeer.Base.{ℕ, Bool, List, Option, if◌then◌else◌, ltb}
use sonicpeer.Backend.{BackendClient, get_epoch}
use sonicpeer.Env.{Env}
use sonicpeer.PeerSet.{PeerSet}
use sonicpeer.Topology.{Advisor}

-- The part of `handler` that the modelled methods read or write. `local_end_point` is what
-- `localEndPointSource` answers, `none` if there is no source or it has no answer.
pub record Handler (e : Env) : Type 0 where
  pub network_id : ℕ
  pub genesis : ℕ
  pub max_peers : ℕ
  pub peers : PeerSet e
  pub msg_semaphore : e.Semaphore
  pub connection_advisor : Advisor e.Node
  pub discovered_nodes : List (ℕ × e.Node)
  pub local_end_point : Option e.Node
  pub has_new_txs_hook : Bool
  pub min_gas_price : ℕ
  pub backend : BackendClient
  pub tx_hash_cache : e.Lru
  pub event_id_cache : e.Lru
  pub tracked_epoch : ℕ
  pub stale_grace_period : ℕ

module _ {e : Env} where
  -- `checkNewEpoch`, with no other call of it between its load and its swap
  unfoldable pub check_new_epoch : Handler e → Handler e × ℕ
  check_new_epoch h =
      let current = get_epoch h.backend in
      (if ltb h.tracked_epoch current then record h { tracked_epoch = current } else h, current)
