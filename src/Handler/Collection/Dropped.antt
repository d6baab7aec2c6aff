-- ===== src/Handler/Collection/Dropped.antt =====
-- The peer that a tick of the collection drops.
use sonicpeer.Base.{
  ℕ, ◌≤◌, ◌<◌, ◌≡◌, refl, sym, ap, subst, ◌∙◌, ◌⊎◌, inl, inr, Bool, true, ◌&&◌, List, [], ◌∷◌,
  Option, none, some, arith, All, Bool-cases, Option-cases, if◌then◌else◌, ◌==◌, ltb, leb, length,
  lookup, lookup-store,
}
use sonicpeer.Env.{Env}
use sonicpeer.Protocol.{Error}
use sonicpeer.Handler.{Handler}
use sonicpeer.Handler.Collection.{suggest, wants_end_point, request_end_points, drop_peer, collect}
use sonicpeer.Peer.{Peer, disconnect}
use sonicpeer.Peer.Sync.{running_cap, send, send_end_point_update_request}
use sonicpeer.PeerSet.{PeerSet, list, update}
use sonicpeer.PeerSet.Keyed.{IsKeyed, values, store-IsKeyed}
use sonicpeer.PeerSet.Loops.{list-values}
use sonicpeer.Topology.{get_redundant_peer_suggestion}

crowds : (a b c : ℕ) → ltb 0 a && leb b c ≡ true → (b ≤ c) × (0 < a)
crowds a b c h = (ground (arith, h), ground (arith, h))

module _ {e : Env} where
  -- Whether a peer has been told to disconnect, and why; `none` if it is not registered.
  abbrev notice : Option (Peer e) → Option (Option Error)
  notice none = none
  notice (some p) = some p.disconnected

  abbrev pub told : ℕ → PeerSet e → Option (Option Error)
  told id ps = notice (lookup id ps.peers)

  -- The set says of each of the peers what the peer says.
  abbrev Agrees : List (Peer e) → PeerSet e → Type 0
  Agrees l ps = All (λ p. told p.id ps ≡ some p.disconnected) l

  told-update :
      (p : Peer e) (ps : PeerSet e) (x : Option Error) (id : ℕ)
      → told p.id ps ≡ some x
      → told id (update p ps) ≡ (if p.id == id then some p.disconnected else told id ps)
  unfolding update
  told-update p ps x id there = elim (Option-cases (lookup p.id ps.peers)) [
    | inl missing ↦ absurd (ground (arith, rw missing at there))
    | inr (q, found) ↦
        rw (found, update)
          (rw (lookup-store p.id id p ps.peers) (elim (Bool-cases (p.id == id)) [
            | inl same ↦ rw same refl
            | inr other ↦ rw other refl
          ]))
  ]

  told-disconnect :
      (p : Peer e) (ps : PeerSet e) (id : ℕ)
      → told p.id ps ≡ some p.disconnected
      → told id (update (disconnect Error.disc_too_many_peers p) ps)
        ≡ (if p.id == id then some (some Error.disc_too_many_peers) else told id ps)
  unfolding disconnect
  told-disconnect p ps id there =
      told-update (disconnect Error.disc_too_many_peers p) ps p.disconnected id there

  -- An update that leaves the reason as it is
  told-update-same :
      (p : Peer e) (ps : PeerSet e) (id : ℕ)
      → told p.id ps ≡ some p.disconnected
      → told id (update p ps) ≡ told id ps
  told-update-same p ps id there =
      told-update p ps p.disconnected id there ∙ elim (Bool-cases (p.id == id)) [
        | inl same ↦
            let key : p.id ≡ id = ground (arith, same) in
            rw same (subst (λ j. some p.disconnected ≡ told j ps) key (sym there))
        | inr other ↦ rw other refl
      ]

  asked :
      (p : Peer e)
      → ((send_end_point_update_request p).0.id ≡ p.id)
        × ((send_end_point_update_request p).0.disconnected ≡ p.disconnected)
  unfolding send_end_point_update_request send
  asked p = elim (Bool-cases (running_cap p.caps (65 ∷ []))) [
    | inl speaks ↦ rw (speaks, send_end_point_update_request) (refl, refl)
    | inr older ↦ rw (older, send_end_point_update_request) (refl, refl)
  ]

  Agrees-cong :
      (l : List (Peer e)) (ps qs : PeerSet e)
      → ((id : ℕ) → told id qs ≡ told id ps)
      → Agrees l ps
      → Agrees l qs
  Agrees-cong [] ps qs same all = tt
  Agrees-cong (p ∷ l) ps qs same all = (same p.id ∙ all.0, Agrees-cong l ps qs same all.1)

  request_end_points-told :
      (period now : ℕ) (l : List (Peer e)) (ps : PeerSet e)
      → Agrees l ps
      → (id : ℕ) → told id (request_end_points period now l ps) ≡ told id ps
  unfolding request_end_points
  request_end_points-told period now [] ps all id = refl
  request_end_points-told period now (p ∷ l) ps all id =
      elim (Bool-cases (wants_end_point period now p)) [
        | inr has ↦ rw (has, request_end_points) (request_end_points-told period now l ps all.1 id)
        | inl wants ↦
            let p' = (send_end_point_update_request p).0 in
            let same : (j : ℕ) → told j (update p' ps) ≡ told j ps = λ j.
              told-update-same p' ps j
                (ap (λ i. told i ps) (asked p).0 ∙ all.0 ∙ ap some (sym (asked p).1)) in
            rw (wants, request_end_points)
              (request_end_points-told period now l (update p' ps)
                  (Agrees-cong l ps (update p' ps) same all.1) id
                ∙ same id)
      ]

  -- The loop leaves the set, or disconnects a peer of the node that it is given.
  drop_peer-one :
      (node : ℕ) (l : List (Peer e)) (ps : PeerSet e)
      → Agrees l ps
      → (drop_peer node l ps ≡ ps)
        ⊎ ((p : Peer e) × (p.node_id ≡ node)
            × (told p.id ps ≡ some p.disconnected)
            × (drop_peer node l ps ≡ update (disconnect Error.disc_too_many_peers p) ps))
  unfolding drop_peer
  drop_peer-one node [] ps all = inl refl
  drop_peer-one node (p ∷ l) ps all = elim (Bool-cases (p.node_id == node)) [
    | inl same ↦ rw same (inr (p, ground (arith, same), all.0, refl))
    | inr other ↦ rw other (drop_peer-one node l ps all.1)
  ]

  Agrees-weaken :
      (k : ℕ) (q : Peer e) (m : List (ℕ × Peer e)) (l : List (Peer e)) (closed : Bool)
      → lookup k m ≡ none
      → Agrees l (record { peers = m; closed = closed })
      → Agrees l (record { peers = (k, q) ∷ m; closed = closed })
  Agrees-weaken k q m [] closed new all = tt
  Agrees-weaken k q m (p ∷ l) closed new all = elim (Bool-cases (k == p.id)) [
    | inl same ↦
        let key : k ≡ p.id = ground (arith, same) in
        absurd (ground (arith, all.0, ap notice (subst (λ j. lookup j m ≡ none) key new)))
    | inr other ↦ (rw other all.0, Agrees-weaken k q m l closed new all.1)
  ]

  values-Agrees :
      (m : List (ℕ × Peer e)) (closed : Bool)
      → IsKeyed m
      → Agrees (values m) (record { peers = m; closed = closed })
  values-Agrees [] closed keyed = tt
  values-Agrees ((k, p) ∷ m) closed keyed =
      let own : (k == p.id) ≡ true = ground (arith, keyed.0) in
      (rw own refl, Agrees-weaken k p m (values m) closed keyed.1 (values-Agrees m closed keyed.2))

  update-IsKeyed : (p : Peer e) (ps : PeerSet e) → IsKeyed ps.peers → IsKeyed (update p ps).peers
  unfolding update
  update-IsKeyed p ps keyed = elim (Option-cases (lookup p.id ps.peers)) [
    | inl missing ↦ rw (missing, update) keyed
    | inr (q, found) ↦ rw (found, update) (store-IsKeyed p ps.peers keyed)
  ]

  request_end_points-IsKeyed :
      (period now : ℕ) (l : List (Peer e)) (ps : PeerSet e)
      → IsKeyed ps.peers
      → IsKeyed (request_end_points period now l ps).peers
  unfolding request_end_points update
  request_end_points-IsKeyed period now [] ps keyed = keyed
  request_end_points-IsKeyed period now (p ∷ l) ps keyed =
      elim (Bool-cases (wants_end_point period now p)) [
        | inr has ↦ rw (has, request_end_points) (request_end_points-IsKeyed period now l ps keyed)
        | inl wants ↦
            let p' = (send_end_point_update_request p).0 in
            rw (wants, request_end_points)
              (request_end_points-IsKeyed period now l (update p' ps) (update-IsKeyed p' ps keyed))
      ]

  -- A tick of the collection either leaves every registered peer as connected as it was, or it tells exactly one
  -- to disconnect. It does that only where the node has as many peers as it may have, or more, and
  -- some node has been suggested in that tick; the peer is the one that the advisor suggests as
  -- redundant, and the reason is that there are too many peers.
  pub collect-told :
      (room : ℕ → Bool) (draw : ℕ → ℕ → ℕ) (clock : ℕ → ℕ) (period : ℕ) (h : Handler e)
      → IsKeyed h.peers.peers
      → ((id : ℕ) → told id (collect room draw clock period h).0.peers ≡ told id h.peers)
        ⊎ ((p : Peer e) × (h.max_peers ≤ length (list h.peers))
            × (0 < length (collect room draw clock period h).1)
            × ((get_redundant_peer_suggestion e.node_id
                  (draw 0)
                  (clock 0)
                  (suggest room draw clock h.peers 32 h.connection_advisor []).0).1
                ≡ some p.node_id)
            × (told p.id h.peers ≡ some p.disconnected)
            × ((id : ℕ)
                → told id (collect room draw clock period h).0.peers ≡ (
                    if p.id == id then some (some Error.disc_too_many_peers) else told id h.peers)))
  unfolding collect
  collect-told room draw clock period h keyed =
      let (c, suggested) = suggest room draw clock h.peers 32 h.connection_advisor [] in
      let before : Agrees (list h.peers) h.peers =
        subst (λ l. Agrees l h.peers) (sym (list-values h.peers))
          (values-Agrees h.peers.peers h.peers.closed keyed) in
      let ps = request_end_points period (clock 0) (list h.peers) h.peers in
      let same = request_end_points-told period (clock 0) (list h.peers) h.peers before in
      let keyed' = request_end_points-IsKeyed period (clock 0) (list h.peers) h.peers keyed in
      let agrees : Agrees (list ps) ps =
        subst (λ l. Agrees l ps) (sym (list-values ps)) (values-Agrees ps.peers ps.closed keyed') in
      elim (Bool-cases (ltb 0 (length suggested) && leb h.max_peers (length (list h.peers)))) [
        | inr enough ↦ rw (enough, collect) (inl same)
        | inl crowded ↦
            elim (Option-cases (get_redundant_peer_suggestion e.node_id (draw 0) (clock 0) c).1) [
              | inl nobody ↦ rw (crowded, collect) (rw nobody (inl same))
              | inr (node, redundant) ↦ elim (drop_peer-one node (list ps) ps agrees) [
                | inl left ↦ rw (crowded, collect) (rw redundant (rw left (inl same)))
                | inr (p, of_node, there, drops) ↦
                    let (most, some') =
                      crowds (length suggested) h.max_peers (length (list h.peers)) crowded in
                    rw (crowded, collect)
                      (rw redundant (
                        rw drops (
                          inr (
                            p,
                            most,
                            some',
                            ap some (sym of_node),
                            sym (same p.id) ∙ there,
                            λ id.
                                told-disconnect p ps id there
                                ∙ ap
                                    (λ x.
                                      if p.id == id
                                      then some (some Error.disc_too_many_peers)
                                      else x)
                                    (same id),
                          ))))
              ]
            ]
      ]
