-- ===== src/Handler/Sample.antt =====
-- A handler with one registered peer, for the tests.
use sonicpeer.Base.{true, false, List, [], ◌∷◌, some, none}
use sonicpeer.Env.Sample.{env, SampleTx}
use sonicpeer.Peer.Sample.{sample_peer}
use sonicpeer.Env.Wire.{wire_env}
use sonicpeer.Handler.{Handler}

abbrev pub sample_handler : Handler env
sample_handler = record {
  network_id = 146;
  genesis = 77;
  max_peers = 50;
  peers = record { peers = (11, sample_peer) ∷ []; closed = false };
  msg_semaphore = record {
    used = record { num = 0; size = 0 };
    limit = record { num = 10; size = 100000 };
  };
  connection_advisor = record { neighborhood = []; local_id = 1; max_peer_info_age = 100 };
  discovered_nodes = [];
  local_end_point = some 1;
  has_new_txs_hook = true;
  min_gas_price = 3;
  backend = record { progress = none };
  tx_hash_cache = 40 ∷ [];
  event_id_cache = [];
  tracked_epoch = 7;
  stale_grace_period = 100;
}

-- Three transactions on their way between two nodes
abbrev pub three_txs : List SampleTx
three_txs =
    record { hash = 40; size = 100; price = 5; signed = true }
    ∷ record { hash = 41; size = 100; price = 1; signed = true }
    ∷ record { hash = 42; size = 100; price = 3; signed = true }
    ∷ []

abbrev pub wire_handler : Handler wire_env
wire_handler = record {
  network_id = 146;
  genesis = 77;
  max_peers = 50;
  peers = record { peers = []; closed = false };
  msg_semaphore = record {
    used = record { num = 0; size = 0 };
    limit = record { num = 10; size = wire_env.max_msg_size };
  };
  connection_advisor = record { neighborhood = []; local_id = 1; max_peer_info_age = 100 };
  discovered_nodes = [];
  local_end_point = none;
  has_new_txs_hook = true;
  min_gas_price = 3;
  backend = record { progress = none };
  tx_hash_cache = [];
  event_id_cache = [];
  tracked_epoch = 7;
  stale_grace_period = 100;
}
