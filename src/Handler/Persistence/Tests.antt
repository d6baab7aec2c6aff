-- ===== src/Handler/Persistence/Tests.antt =====
-- A file that keeps the texts of nodes, each closed by a 0, and what is saved in it and loaded.
use sonicpeer.Base.{
  ℕ, zero, suc, ◌≡◌, refl, ap, ◌∙◌, true, List, [], ◌∷◌, Option, none, some, arith, lookup,
}
use sonicpeer.Env.Sample.{env}
use sonicpeer.Peer.{Peer}
use sonicpeer.PeerSet.{list}
use sonicpeer.PeerSet.Keyed.{values}
use sonicpeer.Handler.{Handler}
use sonicpeer.Handler.Sample.{sample_handler}
use sonicpeer.Handler.Persistence.{add_connected, all_nodes, save_peers, load_peers}
use sonicpeer.Handler.Persistence.Reloaded.{either, load_peers-save_peers}

abbrev closed_by : List ℕ → List ℕ → List ℕ
closed_by [] rest = 0 ∷ rest
closed_by (c ∷ text) rest = suc c ∷ closed_by text rest

abbrev marshal : List (List ℕ) → List ℕ
marshal [] = []
marshal (text ∷ texts) = closed_by text (marshal texts)

abbrev put : ℕ → List (List ℕ) → List (List ℕ)
put c [] = []
put c (text ∷ texts) = (c ∷ text) ∷ texts

abbrev unmarshal : List ℕ → List (List ℕ)
unmarshal [] = []
unmarshal (zero ∷ rest) = [] ∷ unmarshal rest
unmarshal (suc c ∷ rest) = put c (unmarshal rest)

unmarshal-closed_by : (text rest : List ℕ) → unmarshal (closed_by text rest) ≡ text ∷ unmarshal rest
unmarshal-closed_by [] rest = refl
unmarshal-closed_by (c ∷ text) rest = ap (put c) (unmarshal-closed_by text rest)

unmarshal-marshal : (texts : List (List ℕ)) → unmarshal (marshal texts) ≡ texts
unmarshal-marshal [] = refl
unmarshal-marshal (text ∷ texts) =
    unmarshal-closed_by text (marshal texts) ∙ ap (◌∷◌ text) (unmarshal-marshal texts)

abbrev saving : Handler env
saving = record sample_handler { discovered_nodes = (5, 5) ∷ (9, 9) ∷ [] }

abbrev node_of : Peer env → Option ℕ
node_of p = some p.node_id

load_peers-save_peers_example :
    (discovered : List (ℕ × ℕ)) × (load_peers
        (λ t. some (unmarshal t))
        true
        10
        (save_peers node_of (λ t. some (marshal t)) some true none saving)
        sample_handler
      ≡ (
        record sample_handler { discovered_nodes = discovered },
        values (all_nodes node_of saving),
      ))
    × ((id : ℕ)
        → (lookup id discovered ≡ either (lookup id (all_nodes node_of saving)) (lookup id []))
          × (lookup id (all_nodes node_of saving)
              ≡ either
                  (lookup id ((5, 5) ∷ (9, 9) ∷ []))
                  (lookup id (add_connected node_of (list saving.peers) []))))
unfolding all_nodes list
load_peers-save_peers_example =
    load_peers-save_peers (λ n. refl) (λ t. some (marshal t)) (λ t. some (unmarshal t))
      (λ nodes. (marshal nodes, refl, ap some (unmarshal-marshal nodes))) node_of none 10 saving
      sample_handler (refl, (refl, tt)) (refl, (refl, tt)) (omega arith) (omega arith)
