-- ===== src/Peer/Sample.antt =====
-- A peer with room for two messages, for the tests.
use sonicpeer.Base.{true, false, [], ◌∷◌, none}
use sonicpeer.Env.Sample.{env}
use sonicpeer.Env.Wire.{wire_env}
use sonicpeer.Known.Sample.{full_cache}
use sonicpeer.Peer.{Peer}

abbrev pub sample_peer : Peer env
sample_peer = record {
  id = 11;
  node_id = 11;
  trusted = false;
  inbound = true;
  caps = 65 ∷ [];
  version = 65;
  conn = record { sent = []; broken = false };
  known_txs = full_cache;
  known_events = full_cache;
  queue = [];
  queue_cap = 2;
  queued_data = record {
    used = record { num = 0; size = 0 };
    limit = record { num = 2; size = 4096 };
  };
  terminated = false;
  progress = record {
    epoch = 7;
    last_block_idx = 100;
    last_block_atropos = 3;
    highest_lamport = 0;
  };
  useless = false;
  end_point = none;
  stale_since = none;
  disconnected = none;
}

-- The same with encodings that are decoded again
abbrev pub wire_peer : Peer wire_env
wire_peer = record {
  id = 11;
  node_id = 11;
  trusted = false;
  inbound = true;
  caps = 65 ∷ [];
  version = 65;
  conn = record { sent = []; broken = false };
  known_txs = full_cache;
  known_events = full_cache;
  queue = [];
  queue_cap = 2;
  queued_data = record {
    used = record { num = 0; size = 0 };
    limit = record { num = 2; size = 4096 };
  };
  terminated = false;
  progress = record {
    epoch = 7;
    last_block_idx = 100;
    last_block_atropos = 3;
    highest_lamport = 0;
  };
  useless = false;
  end_point = none;
  stale_since = none;
  disconnected = none;
}
