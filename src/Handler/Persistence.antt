-- ===== src/Handler/Persistence.antt =====
-- pkg/gossip/handler.go: savePeers and loadPeers, which keep the known nodes in the file nodes.json of
-- the data directory. `has_dir` says whether there is one, `file` what the file holds, if it can be
-- read. `marshal` and `unmarshal` are those of encoding/json, for a list of records with the text of a
-- node each; `write_file` gives what the file holds after a write; `node_of` is `Node()` of a peer.
pub mod Reloaded
mod Tests
use sonicpeer.Base.{
  ℕ, zero, suc, Bool, List, [], ◌∷◌, map, Option, none, some, if◌then◌else◌, ◌==◌, length, store,
}
use sonicpeer.Env.{Env}
use sonicpeer.Peer.{Peer}
use sonicpeer.PeerSet.{list}
use sonicpeer.PeerSet.Keyed.{values}
use sonicpeer.Handler.{Handler}

-- The discovered nodes, which replace those of the same id.
pub add_discovered : {N : Type 0} → List (ℕ × N) → List (ℕ × N) → List (ℕ × N)
add_discovered [] nodes = nodes
add_discovered ((id, n) ∷ discovered) nodes = add_discovered discovered (store id n nodes)

module _ (e : Env) where
  -- The loop of `loadPeers`, until the handler quits, which is when `sends` nodes have been suggested:
  -- the discovered nodes, and the suggestions.
  pub load_nodes : ℕ → List (List ℕ) → List (ℕ × e.Node) → List (ℕ × e.Node) × List e.Node
  load_nodes sends [] discovered = (discovered, [])
  load_nodes sends (text ∷ texts) discovered = elim (e.parse_node text) [
    | none ↦ load_nodes sends texts discovered
    | some n ↦ elim sends [
      | zero ↦ (store (e.node_id n) n discovered, [])
      | suc left ↦
          let (discovered', suggested) = load_nodes left texts (store (e.node_id n) n discovered) in
          (discovered', n ∷ suggested)
    ]
  ]

module _ {e : Env} where
  -- The nodes of the connected peers, by their ids.
  pub add_connected :
      (Peer e → Option e.Node) → List (Peer e) → List (ℕ × e.Node) → List (ℕ × e.Node)
  add_connected node_of [] nodes = nodes
  add_connected node_of (p ∷ ps) nodes = elim (node_of p) [
    | none ↦ add_connected node_of ps nodes
    | some n ↦ add_connected node_of ps (store (e.node_id n) n nodes)
  ]

  -- `allNodes`
  unfoldable pub all_nodes : (Peer e → Option e.Node) → Handler e → List (ℕ × e.Node)
  unfolding add_connected add_discovered
  all_nodes node_of h = add_discovered h.discovered_nodes (add_connected node_of (list h.peers) [])

  -- `savePeers`: what the file holds afterwards
  unfoldable pub save_peers :
      (Peer e → Option e.Node)
      → (List (List ℕ) → Option (List ℕ))
      → (List ℕ → Option (List ℕ))
      → Bool
      → Option (List ℕ)
      → Handler e
      → Option (List ℕ)
  save_peers node_of marshal write_file has_dir file h =
      if has_dir
      then (let nodes = map e.node_text (values (all_nodes node_of h)) in
          if length nodes == 0
          then file
          else elim (marshal nodes) [ none ↦ file | some text ↦ write_file text ])
      else file

  -- `loadPeers`
  unfoldable pub load_peers :
      (List ℕ → Option (List (List ℕ)))
      → Bool
      → ℕ
      → Option (List ℕ)
      → Handler e
      → Handler e × List e.Node
  unfolding load_nodes
  load_peers unmarshal has_dir sends file h =
      if has_dir
      then elim file [
        | none ↦ (h, [])
        | some text ↦ elim (unmarshal text) [
          | none ↦ (h, [])
          | some nodes ↦
              let (discovered, suggested) = load_nodes e sends nodes h.discovered_nodes in
              (record h { discovered_nodes = discovered }, suggested)
        ]
      ]
      else (h, [])
