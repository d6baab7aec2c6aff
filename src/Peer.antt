-- ===== src/Peer.antt =====
-- pkg/gossip/peer.go: the peer, its marks and its filters. The children have the queue of broadcasts
-- (Outbox), the calls and the loop that share it (Traffic), the calls that fill it (Async), the sends
-- that wait for the connection (Sync), the requests (Request), the batches (Split) and the handshake
-- (Handshake). `none` is a panic of the caches.
--
-- The locks of a peer guard single calls; a call is one step here. The fields of `p2p.Peer` that the
-- code asks for (`trusted`, `inbound`, `node_id`, `caps`) stand among the fields of the peer, and a
-- call of `Disconnect` is noted in `disconnected`.
pub mod Split
pub mod Request
pub mod Outbox
pub mod Traffic
pub mod Accounts
pub mod Fresh
pub mod Async
pub mod Marks
pub mod Sample
pub mod Sync
pub mod Handshake
mod Tests
use sonicpeer.Base.{
  ℕ, ◌+◌, Bool, true, false, not, ◌&&◌, ◌||◌, List, [], ◌∷◌, map, Option, none, some, ◌==◌,
  if◌then◌else◌, ◌>>=◌,
}
use sonicpeer.Env.{Env, Metric}
use sonicpeer.Known
use sonicpeer.Known.{HashCache}
use sonicpeer.Known.Events
use sonicpeer.Known.Events.{EventCache}
use sonicpeer.Protocol.{PeerProgress, Error}

-- `PeerCacheConfig`
pub record PeerCacheConfig : Type 0 where
  pub max_known_txs : ℕ
  pub max_known_events : ℕ
  pub max_queued_items : ℕ
  pub max_queued_size : ℕ

-- `broadcastItem`, less its two times, which nothing reads.
pub record BroadcastItem : Type 0 where
  pub code : ℕ
  pub raw : List ℕ

-- `peerEndPointInfo`
pub record PeerEndPointInfo (N : Type 0) : Type 0 where
  pub enode : N
  pub timestamp : ℕ

-- `PeerInfo`
pub record PeerInfo : Type 0 where
  pub version : ℕ
  pub epoch : ℕ
  pub num_of_blocks : ℕ

pub record Peer (e : Env) : Type 0 where
  pub id : ℕ
  pub node_id : ℕ
  pub trusted : Bool
  pub inbound : Bool
  pub caps : List ℕ
  pub version : ℕ
  pub conn : e.Conn
  pub known_txs : HashCache
  pub known_events : EventCache
  pub queue : List BroadcastItem
  pub queue_cap : ℕ
  pub queued_data : e.Semaphore
  pub terminated : Bool
  pub progress : PeerProgress
  pub useless : Bool
  pub end_point : Option (PeerEndPointInfo e.Node)
  pub stale_since : Option ℕ
  pub disconnected : Option Error

module _ {e : Env} where
  -- `newPeer`. The semaphore of `cfg` is made outside, by `datasemaphore.New`.
  unfoldable pub new_peer :
      ℕ → ℕ → Bool → Bool → List ℕ → e.Conn → e.Semaphore → PeerCacheConfig → Peer e
  new_peer version node_id trusted inbound caps conn semaphore cfg = record {
    id = node_id;
    node_id = node_id;
    trusted = trusted;
    inbound = inbound;
    caps = caps;
    version = version;
    conn = conn;
    known_txs = Known.new cfg.max_known_txs;
    known_events = Events.new cfg.max_known_events;
    queue = [];
    queue_cap = cfg.max_queued_items;
    queued_data = semaphore;
    terminated = false;
    progress = record {
      epoch = 0;
      last_block_idx = 0;
      last_block_atropos = 0;
      highest_lamport = 0;
    };
    useless = false;
    end_point = none;
    stale_since = none;
    disconnected = none;
  }

  -- `SetUseless`
  unfoldable pub set_useless : Peer e → Peer e
  set_useless p = record p { useless = true }

  -- `SetProgress`
  unfoldable pub set_progress : PeerProgress → Peer e → Peer e
  set_progress x p = record p { progress = x }

  -- `Disconnect` of the p2p package
  unfoldable pub disconnect : Error → Peer e → Peer e
  disconnect reason p = record p { disconnected = some reason }

  -- `InterestedIn`
  unfoldable pub interested_in : Peer e → ℕ → Bool
  interested_in p h =
      let epoch = e.epoch_of h in
      not (epoch == 0)
      && not (p.progress.epoch == 0)
      && (epoch == p.progress.epoch || epoch == p.progress.epoch + 1)
      && not (Events.contains p.known_events h)

  -- `Info`
  unfoldable pub info : Peer e → PeerInfo
  info p = record {
    version = p.version;
    epoch = p.progress.epoch;
    num_of_blocks = p.progress.last_block_idx;
  }

  -- `MarkEvent`
  unfoldable pub mark_event : ℕ → Peer e → Option (Peer e)
  mark_event h p = do known ← Events.add p.known_events h; some (record p { known_events = known })

  -- `MarkTransaction`
  unfoldable pub mark_transaction : ℕ → Peer e → Option (Peer e)
  mark_transaction h p = do known ← Known.add p.known_txs h; some (record p { known_txs = known })

  -- The loops that mark each of a list of hashes.
  unfoldable pub mark_events : List ℕ → Peer e → Option (Peer e)
  mark_events [] p = some p
  mark_events (h ∷ hs) p = do p' ← mark_event h p; mark_events hs p'

  unfoldable pub mark_transactions : List ℕ → Peer e → Option (Peer e)
  mark_transactions [] p = some p
  mark_transactions (h ∷ hs) p = do p' ← mark_transaction h p; mark_transactions hs p'

  -- `FilterKnownTxs`
  unfoldable pub filter_known_txs : Peer e → List e.Tx → List e.Tx → List e.Tx
  filter_known_txs p txs dst = Known.filter_new e.tx_hash p.known_txs txs dst

  -- `FilterKnownEvents`
  unfoldable pub filter_known_events : Peer e → List e.Event → List e.Event → List e.Event
  filter_known_events p events dst = Events.filter_new e.event_id p.known_events events dst
