-- ===== src/Config.antt =====
-- pkg/gossip/config.go: the configuration of the gossip, less what this program does not read: the
-- options for the RPC calls of a node with a chain. A duration is a number of nanoseconds. A cachescale.Func
-- is a `Scale`; an int that it gives is not negative, and small enough for the sums to stay in an int.
use sonicpeer.Base.{ℕ, ◌+◌, ◌*◌, ◌/◌, ◌%◌, ◌^◌, List, [], Option, none, some, if◌then◌else◌, ltb}
use sonicpeer.Env.{Env, Metric}
use sonicpeer.Peer.{PeerCacheConfig}

-- `cachescale.Func`
pub record Scale : Type 0 where
  pub i : ℕ → ℕ
  pub u64 : ℕ → ℕ
  pub events : ℕ → ℕ

-- `cachescale.Identity`
abbrev pub identity : Scale
identity = record { i = λ n. n; u64 = λ n. n; events = λ n. n }

-- `ProtocolConfig`
pub record ProtocolConfig : Type 0 where
  pub latency_importance : ℕ
  pub throughput_importance : ℕ
  pub msgs_semaphore_limit : Metric
  pub msgs_semaphore_timeout : ℕ
  pub progress_broadcast_period : ℕ
  pub max_initial_tx_hashes_send : ℕ
  pub max_random_tx_hashes_send : ℕ
  pub random_tx_hashes_send_period : ℕ
  pub peer_info_collection_period : ℕ
  pub peer_info_maintenance_period : ℕ
  pub peer_end_point_update_period : ℕ
  pub peer_stale_epoch_grace_period : ℕ
  pub peer_cache : PeerCacheConfig

-- `Config`
pub record Config : Type 0 where
  pub opera_discovery_urls : List (List ℕ)
  pub protocol : ProtocolConfig
  pub min_gas_price : ℕ
  pub rpc_timeout : ℕ

abbrev second : ℕ
second = 1000000000

abbrev mib : ℕ
mib = 1024 * 1024

module _ (e : Env) where
  -- `DefaultPeerCacheConfig`
  unfoldable pub default_peer_cache_config : Scale → PeerCacheConfig
  default_peer_cache_config scale = record {
    max_known_txs = 24576 * 3 / 4 + scale.i (24576 / 4);
    max_known_events = 24576 * 3 / 4 + scale.i (24576 / 4);
    max_queued_items = (4096 * 3 / 4 + scale.events (4096 / 4)) % 2 ^ 32;
    max_queued_size = (e.max_msg_size * 3 / 4 + 1024 + scale.u64 (e.max_msg_size / 4)) % 2 ^ 64;
  }

  -- `DefaultConfig`
  unfoldable pub default_config : Scale → Config
  default_config scale = record {
    opera_discovery_urls = [];
    protocol = record {
      latency_importance = 100;
      throughput_importance = 0;
      msgs_semaphore_limit = record { num = scale.events 5000; size = scale.u64 (150 * mib) };
      msgs_semaphore_timeout = 10 * second;
      progress_broadcast_period = 10 * second;
      max_initial_tx_hashes_send = 20000;
      max_random_tx_hashes_send = 250;
      random_tx_hashes_send_period = second;
      peer_info_collection_period = 5 * second;
      peer_info_maintenance_period = 5 * 60 * second;
      peer_end_point_update_period = 5 * 60 * second;
      peer_stale_epoch_grace_period = second;
      peer_cache = default_peer_cache_config scale;
    };
    min_gas_price = 0;
    rpc_timeout = 5 * second;
  }

  -- `Validate`, where an error is the size that is the least
  unfoldable pub validate : Config → Option ℕ
  validate c =
      if ltb c.protocol.msgs_semaphore_limit.size e.max_msg_size then some e.max_msg_size else none
