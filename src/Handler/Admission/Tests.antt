-- ===== src/Handler/Admission/Tests.antt =====
-- The theorems about the life cycle of a peer, at a sample handler.
use sonicpeer.Base.{
  ℕ, ◌≡◌, ◌≢◌, refl, Bool, true, false, List, [], ◌∷◌, Option, some, none, arith, if◌then◌else◌,
  ◌==◌,
}
use sonicpeer.Env.{failed, received}
use sonicpeer.Env.Sample.{env, env-SemaphoreLaws, SampleTx, hashes}
use sonicpeer.Known.Sample.{full_cache-IsValid}
use sonicpeer.Protocol.{Error}
use sonicpeer.Protocol.Code
use sonicpeer.Peer.{Peer, set_useless}
use sonicpeer.Peer.Sample.{sample_peer}
use sonicpeer.PeerSet.{peer, len, register_peer, useless_num}
use sonicpeer.Handler.{Handler}
use sonicpeer.Handler.Sample.{sample_handler}
use sonicpeer.Handler.Messages.Released.{SameHeld}
use sonicpeer.Handler.Admission.{Incoming, registers, admit, handle}
use sonicpeer.Env.Wire.{
  wire_env, tx_bytes, wire_env-WireLaws, wire_env-LruLaws, wire_env-LimitLaws, held-wire,
  limit-wire,
}
use sonicpeer.Handler.Gossip.{handle_txs}
use sonicpeer.Handler.Sample.{three_txs, wire_handler}
use sonicpeer.Peer.Sample.{wire_peer}
use sonicpeer.Peer.Split.{split}
use sonicpeer.Handler.Admission.{serve}
use sonicpeer.Handler.Admission.Batched.{carries, nothing, IsIdle, serve-split}
use sonicpeer.Handler.Admission.Limited.{Limited, admit-Limited}
use sonicpeer.Handler.Admission.Restored.{handle-ends}

abbrev stranger : ℕ → Peer env
stranger id = record sample_peer { id = id; node_id = id }

-- A peer that announces two hashes and goes away.
abbrev visit : List (Incoming env)
visit =
    record {
      now = 5;
      later = 6;
      read = received Code.new_evm_tx_hashes 100 (hashes (40 ∷ 41 ∷ []));
    }
    ∷ record { now = 7; later = 8; read = failed 1 }
    ∷ []

handle-ends_example :
    (h' : Handler env) × (p' : Peer env) × (hooked : List SampleTx) × (bans : Bool) × (err : Option
      Error)
    × (handle false none visit sample_handler (stranger 12) ≡ some (h', p', hooked, bans, err))
    × SameHeld env-SemaphoreLaws h'.msg_semaphore sample_handler.msg_semaphore
    × (err ≢ none → (j : ℕ) → peer j h'.peers ≡ peer j sample_handler.peers)
handle-ends_example =
    handle-ends env-SemaphoreLaws false none visit sample_handler (stranger 12) full_cache-IsValid
      (refl, refl, tt)

-- A banned stranger, who is marked as useless when it is admitted
abbrev marked_stranger : Peer env
marked_stranger = record (stranger 12) { useless = true }

abbrev after_first : Handler env
after_first = record sample_handler {
  peers = record { peers = (11, sample_peer) ∷ (12, marked_stranger) ∷ []; closed = false };
}

admit-Limited_example :
    Limited after_first
    × (◌≡◌ {A = Option Error} none none)
    × (sample_handler.peers.closed ≡ false)
    × (peer 12 sample_handler.peers ≡ none)
    × (marked_stranger ≡ record (stranger 12) { useless = true })
    × ((j : ℕ)
        → peer j after_first.peers
          ≡ (if 12 == j then some marked_stranger else peer j sample_handler.peers))
unfolding admit registers len register_peer set_useless useless_num
admit-Limited_example = admit-Limited true none sample_handler (stranger 12) refl (omega arith) refl

-- A handler with one place left.
abbrev nearly_full : Handler env
nearly_full = record sample_handler { max_peers = 2 }

abbrev crowded : Handler env
crowded = record nearly_full {
  peers = record {
    peers = (11, sample_peer) ∷ (12, stranger 12) ∷ (13, stranger 13) ∷ [];
    closed = false;
  };
}

three_split : split wire_env.tx_size three_txs ≡ some (three_txs ∷ [])
unfolding split
three_split = refl

-- A message with the three transactions
abbrev one_message : List (Incoming wire_env)
one_message =
    record {
      now = 5;
      later = 6;
      read = received Code.evm_txs 500 (wire_env-WireLaws.payload (tx_bytes three_txs));
    }
    ∷ []

wire_handler-IsIdle : IsIdle wire_env-LimitLaws wire_handler.msg_semaphore
wire_handler-IsIdle =
    let held = held-wire wire_handler.msg_semaphore in
    let limit = limit-wire wire_handler.msg_semaphore in
    record {
      no_num = rw held refl;
      no_size = rw held refl;
      one_fits = rw limit (omega arith);
      size_fits = rw limit (omega arith);
    }

serve-split_example :
    (h1 : Handler wire_env) × (p1 : Peer wire_env) × (h2 : Handler wire_env) × (p2 : Peer wire_env)
    × (news : List SampleTx) × (handle_txs three_txs wire_handler wire_peer ≡ some (h1, p1, news))
    × (serve one_message wire_handler wire_peer ≡ some (h2, p2, news, none))
    × (h2.tx_hash_cache ≡ h1.tx_hash_cache)
serve-split_example =
    serve-split wire_env-LimitLaws wire_env-WireLaws wire_env-LruLaws three_txs (three_txs ∷ [])
      one_message wire_handler wire_peer three_split
      (carries 5 6 500 three_txs (tx_bytes three_txs) refl (omega arith) nothing)
      wire_handler-IsIdle full_cache-IsValid
