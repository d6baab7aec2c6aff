-- ===== src/Handler/Collection/Tests.antt =====
-- A tick of the collection where one entry reports three nodes.
use sonicpeer.Base.{ℕ, ◌≤◌, ◌<◌, ◌≡◌, ◌⊎◌, refl, true, [], ◌∷◌, some, length, if◌then◌else◌, ◌==◌}
use sonicpeer.Env.Sample.{env}
use sonicpeer.Handler.{Handler}
use sonicpeer.Handler.Sample.{sample_handler}
use sonicpeer.Handler.Collection.{suggest, collect}
use sonicpeer.Handler.Collection.Dropped.{told, collect-told}
use sonicpeer.Peer.{Peer}
use sonicpeer.PeerSet.{list}
use sonicpeer.Protocol.{Error}
use sonicpeer.Topology.{get_redundant_peer_suggestion}
use sonicpeer.Handler.Collection.Suggestions.{Suggestions, collect-Suggestions}

abbrev reported : Handler env
reported = record sample_handler {
  connection_advisor = record {
    neighborhood = (11, record { peers = 1 ∷ 11 ∷ 25 ∷ []; time = 50 }) ∷ [];
    local_id = 1;
    max_peer_info_age = 100;
  };
}

collect-Suggestions_example :
    Suggestions reported.peers 1 32 (collect (λ i. true) (λ i n. 0) (λ i. 60) 300 reported).1
collect-Suggestions_example =
    collect-Suggestions (λ i. true) (λ i n. 0) (λ i. 60) 300 reported (λ i. refl)

-- The same with room for one peer, which is there
abbrev crowded : Handler env
crowded = record reported { max_peers = 1 }

collect-told_example :
    ((id : ℕ)
      → told id (collect (λ i. true) (λ i n. 0) (λ i. 60) 300 crowded).0.peers
        ≡ told id crowded.peers)
    ⊎ ((p : Peer env) × (1 ≤ length (list crowded.peers))
        × (0 < length (collect (λ i. true) (λ i n. 0) (λ i. 60) 300 crowded).1)
        × ((get_redundant_peer_suggestion env.node_id
              (λ n. 0)
              60
              (suggest
                (λ i. true)
                (λ i n. 0)
                (λ i. 60)
                crowded.peers
                32
                crowded.connection_advisor
                []).0).1
            ≡ some p.node_id)
        × (told p.id crowded.peers ≡ some p.disconnected)
        × ((id : ℕ)
            → told id (collect (λ i. true) (λ i n. 0) (λ i. 60) 300 crowded).0.peers ≡ (
                if p.id == id
                then some (some Error.disc_too_many_peers)
                else told id crowded.peers)))
collect-told_example = collect-told (λ i. true) (λ i n. 0) (λ i. 60) 300 crowded (refl, refl, tt)
