-- ===== src/Handler/Collection.antt =====
-- pkg/gossip/handler.go: what peerInfoCollectionLoop and peerInfoMaintenanceLoop do at each tick. A read
-- of the clock and a draw of a random number have the number of the rounds that are left as an argument.
pub mod Suggestions
pub mod Dropped
mod Tests
use sonicpeer.Base.{
  ℕ, zero, suc, ◌-◌, Bool, true, false, ◌&&◌, List, [], ◌∷◌, ◌++◌, map, Option, none, some,
  if◌then◌else◌, ltb, leb, ◌==◌, length, take, member,
}
use sonicpeer.Env.{Env}
use sonicpeer.Protocol.{Error}
use sonicpeer.Peer.{Peer, disconnect}
use sonicpeer.Peer.Sync.{send_end_point_update_request, send_peer_info_request}
use sonicpeer.PeerSet.{PeerSet, peer, list, update}
use sonicpeer.Topology.{Advisor, get_new_peer_suggestion, get_redundant_peer_suggestion}
use sonicpeer.Handler.{Handler}

module _ {e : Env} where
  -- The loop over the suggestions, with `left` rounds to go: the advisor, and the nodes that are handed
  -- to the dialer so far, whose ids are the keys of `suggested`. `room` says whether the channel of
  -- suggested peers has room in a round.
  pub suggest :
      (ℕ → Bool)
      → (ℕ → ℕ → ℕ)
      → (ℕ → ℕ)
      → PeerSet e
      → ℕ
      → Advisor e.Node
      → List e.Node
      → Advisor e.Node × List e.Node
  suggest room draw clock ps zero c suggested = (c, suggested)
  suggest room draw clock ps (suc left) c suggested =
      let (c', suggestion) = get_new_peer_suggestion e.node_id (draw left) (clock left) c in
      elim suggestion [
        | none ↦ (c', suggested)
        | some n ↦ elim (member (e.node_id n) (map e.node_id suggested)) [
          | true ↦ suggest room draw clock ps left c' suggested
          | false ↦ elim (peer (e.node_id n) ps) [
            | some _ ↦ suggest room draw clock ps left c' suggested
            | none ↦ elim (room left) [
              | true ↦ suggest room draw clock ps left c' (suggested ++ n ∷ [])
              | false ↦ (c', suggested)
            ]
          ]
        ]
      ]

  -- Whether the end point of a peer is missing or too old.
  abbrev pub wants_end_point : ℕ → ℕ → Peer e → Bool
  wants_end_point period now p = elim p.end_point [
    | none ↦ true
    | some info ↦ ltb period (now - info.timestamp)
  ]

  -- The loop that asks for end points.
  pub request_end_points : ℕ → ℕ → List (Peer e) → PeerSet e → PeerSet e
  request_end_points period now [] ps = ps
  request_end_points period now (p ∷ l) ps =
      request_end_points period now l
        (if wants_end_point period now p then update (send_end_point_update_request p).0 ps else ps)

  -- The loop that drops the peer of a node.
  pub drop_peer : ℕ → List (Peer e) → PeerSet e → PeerSet e
  drop_peer redundant [] ps = ps
  drop_peer redundant (p ∷ l) ps =
      if p.node_id == redundant
      then update (disconnect Error.disc_too_many_peers p) ps
      else drop_peer redundant l ps

  -- `collect`: the handler, and the nodes that are handed to the dialer
  unfoldable pub collect :
      (ℕ → Bool) → (ℕ → ℕ → ℕ) → (ℕ → ℕ) → ℕ → Handler e → Handler e × List e.Node
  unfolding suggest request_end_points drop_peer
  collect room draw clock period h =
      let (c, suggested) = suggest room draw clock h.peers 32 h.connection_advisor [] in
      let ps = request_end_points period (clock 0) (list h.peers) h.peers in
      if ltb 0 (length suggested) && leb h.max_peers (length (list h.peers))
      then (let (c', redundant) = get_redundant_peer_suggestion e.node_id (draw 0) (clock 0) c in
          let ps' : PeerSet e = elim redundant [
            | none ↦ ps
            | some id ↦ drop_peer id (list ps) ps
          ] in
          (record h { connection_advisor = c'; peers = ps' }, suggested))
      else (record h { connection_advisor = c; peers = ps }, suggested)

  pub request_peer_infos : List (Peer e) → PeerSet e → PeerSet e
  request_peer_infos [] ps = ps
  request_peer_infos (p ∷ l) ps = request_peer_infos l (update (send_peer_info_request p).0 ps)

  -- A tick of `peerInfoMaintenanceLoop`; `shuffle` is the random permutation.
  unfoldable pub maintain : (List (Peer e) → List (Peer e)) → Handler e → Handler e
  unfolding request_peer_infos
  maintain shuffle h = record h {
    peers = request_peer_infos (take 4 (shuffle (list h.peers))) h.peers;
  }
