-- ===== src/Handler/Broadcast/Tests.antt =====
-- A broadcast to two peers, of which the second is useless.
use sonicpeer.Base.{
  arith, map, member, ℕ, lookup-All, ◌≡◌, refl, true, false, List, [], ◌∷◌, some, length,
}
use sonicpeer.Env.Sample.{env, SampleTx, SampleEvent}
use sonicpeer.Handler.Broadcast.Echo.{handle_txs-gather}
use sonicpeer.Handler.Gossip.{handle_txs}
use sonicpeer.Known.{add, contains}
use sonicpeer.Known.Fifo.{IsValid}
use sonicpeer.Known.Sample.{full_cache-IsValid}
use sonicpeer.Peer.{Peer, mark_transaction}
use sonicpeer.Peer.Sample.{sample_peer}
use sonicpeer.PeerSet.{peer, peers_without_event}
use sonicpeer.Handler.{Handler}
use sonicpeer.Handler.Sample.{sample_handler}
use sonicpeer.Handler.Aggressiveness.{Tradeoff}
use sonicpeer.Handler.Broadcast.{txs_of, gather, broadcast_event, broadcast_txs}
use sonicpeer.Handler.Broadcast.Event.{Broadcast, broadcast_event-Broadcast}
use sonicpeer.Handler.Broadcast.Txs.{AllValid, broadcast_txs-AllValid}
use sonicpeer.Handler.Broadcast.Offered.{unknown, gather-unknown}

abbrev tradeoff : Tradeoff
tradeoff = record { latency_importance = 1; throughput_importance = 1 }

abbrev other_peer : Peer env
other_peer = record sample_peer { id = 12; node_id = 12; useless = true }

abbrev two_peers : Handler env
two_peers = record sample_handler {
  peers = record { peers = (11, sample_peer) ∷ (12, other_peer) ∷ []; closed = false };
}

abbrev event : SampleEvent
event = record { id = 9; size = 1000 }

abbrev two_txs : List SampleTx
two_txs =
    record { hash = 40; size = 100; price = 5; signed = true }
    ∷ record { hash = 60; size = 100; price = 5; signed = true }
    ∷ []

broadcast_event-Broadcast_example :
    (h' : Handler env) × (broadcast_event (λ id. true) tradeoff event 50000000 two_peers
      ≡ some (h', length (peers_without_event 9 two_peers.peers)))
    × Broadcast (λ id. true) tradeoff event 50000000 two_peers h'
broadcast_event-Broadcast_example =
    broadcast_event-Broadcast (λ id. true) tradeoff event 50000000 two_peers
      (refl, refl, (refl, refl, tt)) (full_cache-IsValid, (full_cache-IsValid, tt))

gather-unknown_example :
    txs_of 12 (gather {e = env} two_txs two_peers.peers [])
    ≡ unknown two_txs (peer 12 two_peers.peers)
gather-unknown_example = gather-unknown two_txs two_peers.peers 12 (refl, refl, (refl, refl, tt))

two_peers-AllValid : AllValid two_peers.peers
unfolding peer
two_peers-AllValid j p found =
    lookup-All (λ x. (x.1.id ≡ x.0) × IsValid x.1.known_txs) two_peers.peers.peers j p
      ((refl, full_cache-IsValid), ((refl, full_cache-IsValid), tt)) found

broadcast_txs-AllValid_example :
    (h' : Handler env) × (broadcast_txs (λ id. true) (λ m. m) tradeoff two_txs two_peers ≡ some h')
    × (h' ≡ record two_peers { peers = h'.peers })
    × AllValid h'.peers
    × ((j : ℕ)
        → unknown two_txs (peer j two_peers.peers) ≡ []
        → peer j h'.peers ≡ peer j two_peers.peers)
broadcast_txs-AllValid_example =
    broadcast_txs-AllValid (λ id. true) (λ m. m) tradeoff two_txs two_peers (λ P m all. all)
      (refl, refl, (refl, refl, tt)) two_peers-AllValid

-- The first peer has sent both transactions, of which the hook gets the second.
abbrev sender : Peer env
sender = record sample_peer {
  known_txs = record { items = 60 ∷ 40 ∷ 7 ∷ []; keys = 7 ∷ 40 ∷ 60 ∷ []; next = 0; max = 3 };
}

two_handled :
    handle_txs two_txs sample_handler sample_peer
    ≡ some (
      record sample_handler { tx_hash_cache = 60 ∷ 40 ∷ [] },
      sender,
      record { hash = 60; size = 100; price = 5; signed = true } ∷ [],
    )
unfolding handle_txs mark_transaction add
two_handled = refl

handle_txs-gather_example :
    member 60 (
      map env.tx_hash (
        txs_of 11 (
          gather {e = env} two_txs
            (record { peers = (11, sender) ∷ (12, other_peer) ∷ []; closed = false })
            [])))
    ≡ false
unfolding contains peer
handle_txs-gather_example =
    handle_txs-gather two_txs two_txs sample_handler
      (record sample_handler { tx_hash_cache = 60 ∷ 40 ∷ [] }) sample_peer sender
      (record { hash = 60; size = 100; price = 5; signed = true } ∷ [])
      (record { peers = (11, sender) ∷ (12, other_peer) ∷ []; closed = false }) 60
      full_cache-IsValid two_handled (omega arith) refl refl (refl, refl, (refl, refl, tt)) refl
