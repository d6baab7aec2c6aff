-- ===== src/PeerSet/Tests.antt =====
-- The theorems about the set of peers, at a set with one peer.
use sonicpeer.Base.{◌≡◌, refl, true, false, List, [], ◌∷◌, some, none, if◌then◌else◌, ◌==◌}
use sonicpeer.Env.Sample.{env}
use sonicpeer.Peer.{Peer}
use sonicpeer.Peer.Sample.{sample_peer}
use sonicpeer.PeerSet.{PeerSet, peer}
use sonicpeer.PeerSet.Directory.{
  Call, registers, unregisters, closes, run, Directory, promised_run, Refines, run-Refines,
}

abbrev one_peer : PeerSet env
one_peer = record { peers = (11, sample_peer) ∷ []; closed = false }

abbrev one_found : Directory env
one_found = record { find = λ j. if 11 == j then some sample_peer else none; shut = false }

abbrev other_peer : Peer env
other_peer = record sample_peer { id = 12; node_id = 12; useless = true }

abbrev calls : List (Call env)
calls =
    registers sample_peer
    ∷ registers other_peer
    ∷ unregisters 11
    ∷ unregisters 11
    ∷ closes
    ∷ registers sample_peer
    ∷ []

run-Refines_example :
    Refines (run calls one_peer).0 (promised_run calls one_found).0
    × ((run calls one_peer).1 ≡ (promised_run calls one_found).1)
unfolding peer
run-Refines_example =
    run-Refines calls one_peer one_found
      (record { keyed = (refl, refl, tt); found = λ j. refl; flag = refl })
