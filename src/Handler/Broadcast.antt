-- ===== src/Handler/Broadcast.antt =====
-- pkg/gossip/handler.go: BroadcastEvent and BroadcastTxs. `picks` says how the `select` of each peer ends
-- where it may end in two ways. `cfg` is the part of the configuration that decides how many peers get
-- the whole message. A loop over the map of peers with their transactions visits it in the order that
-- `order` gives. `none` is a panic of the caches.
pub mod Divided
pub mod Offered
pub mod Echo
pub mod Sent
pub mod Event
pub mod Queued
pub mod Batched
pub mod Txset
pub mod Txs
pub mod Interested
mod Tests
use sonicpeer.Base.{
  ℕ, suc, ◌+◌, Bool, not, ◌&&◌, List, [], ◌∷◌, ◌++◌, map, Option, none, some, if◌then◌else◌, ltb,
  ◌==◌, length, lookup, store, ◌>>=◌,
}
use sonicpeer.Base.Int64
use sonicpeer.Env.{Env}
use sonicpeer.Peer.{Peer}
use sonicpeer.Peer.Async.{
  async_send_events, async_send_event_ids, async_send_transactions, async_send_transaction_hashes,
}
use sonicpeer.Peer.Split.{split}
use sonicpeer.PeerSet.{PeerSet, peer, peers_without_event, peers_without_tx, update}
use sonicpeer.Handler.{Handler}
use sonicpeer.Handler.Aggressiveness.{Tradeoff, decide_broadcast_aggressiveness}

-- `txset[peer]`, the transactions for a peer
abbrev pub txs_of : {T : Type 0} → ℕ → List (ℕ × List T) → List T
txs_of id m = elim (lookup id m) [ none ↦ [] | some txs ↦ txs ]

-- The sum of the sizes of the transactions, a float64 in the code, which is exact below 2 ^ 53.
pub total_size : {T : Type 0} → (T → ℕ) → List T → ℕ
total_size size [] = 0
total_size size (tx ∷ txs) = size tx + total_size size txs

module _ {e : Env} where
  -- The loop that chooses the peers for the whole event, and those for its hash.
  pub share : ℕ → List (Peer e) → List (Peer e) → List (Peer e) → List (Peer e) × List (Peer e)
  share limit [] full hashes = (full, hashes)
  share limit (p ∷ ps) full hashes =
      if not p.useless && ltb (length full) limit
      then share limit ps (full ++ p ∷ []) hashes
      else share limit ps full (hashes ++ p ∷ [])

  -- A loop that sends to each of a list of peers.
  pub send_to : (Peer e → Option (Peer e × Bool)) → List (Peer e) → PeerSet e → Option (PeerSet e)
  send_to act [] ps = some ps
  send_to act (p ∷ l) ps = do (p', sent) ← act p; send_to act l (update p' ps)

  -- `BroadcastEvent`: the handler, and how many peers the event was sent to
  unfoldable pub broadcast_event :
      (ℕ → Bool) → Tradeoff → e.Event → ℕ → Handler e → Option (Handler e × ℕ)
  unfolding share send_to
  broadcast_event picks cfg event passed h =
      let passed' = if Int64.is_negative passed then 0 else passed in
      let id = e.event_id event in
      let peers = peers_without_event id h.peers in
      if length peers == 0
      then some (h, 0)
      else (let limit =
            decide_broadcast_aggressiveness cfg (e.event_size event) passed' (length peers) in
          let (full, hashes) = share limit peers [] [] in
          do
            ps ← send_to (λ p. async_send_events (picks p.id) (event ∷ []) p) full h.peers
            ps' ← send_to (λ p. async_send_event_ids (picks p.id) (id ∷ []) p) hashes ps
            some (record h { peers = ps' }, length peers))

  -- The loops that give each transaction to the peers that are not known to have it.
  pub give : e.Tx → List (Peer e) → List (ℕ × List e.Tx) → List (ℕ × List e.Tx)
  give tx [] m = m
  give tx (p ∷ l) m = give tx l (store p.id (txs_of p.id m ++ tx ∷ []) m)

  pub gather : List e.Tx → PeerSet e → List (ℕ × List e.Tx) → List (ℕ × List e.Tx)
  unfolding give
  gather [] ps m = m
  gather (tx ∷ txs) ps m = gather txs ps (give tx (peers_without_tx (e.tx_hash tx) ps) m)

  -- The calls for the batches of one peer.
  pub send_batches : Bool → Bool → List (List e.Tx) → Peer e → Option (Peer e)
  send_batches full picks [] p = some p
  send_batches full picks (batch ∷ batches) p = do
    (p', sent) ←
        if full
        then async_send_transactions batch p
        else async_send_transaction_hashes picks (map e.tx_hash batch) p
    send_batches full picks batches p'

  -- The loop over the peers with their transactions, `i` counting the peers.
  pub send_txs : (ℕ → Bool) → ℕ → ℕ → List (ℕ × List e.Tx) → PeerSet e → Option (PeerSet e)
  unfolding send_batches
  send_txs picks limit i [] ps = some ps
  send_txs picks limit i ((id, txs) ∷ m) ps = elim (peer id ps) [
    | none ↦ send_txs picks limit (i + 1) m ps
    | some p ↦ do
      batches ← split e.tx_size txs
      p' ← send_batches (ltb i limit) (picks id) batches p
      send_txs picks limit (i + 1) m (update p' ps)
  ]

  -- `BroadcastTxs`
  unfoldable pub broadcast_txs :
      (ℕ → Bool)
      → (List (ℕ × List e.Tx) → List (ℕ × List e.Tx))
      → Tradeoff
      → List e.Tx
      → Handler e
      → Option (Handler e)
  unfolding gather total_size send_txs
  broadcast_txs picks order cfg txs h =
      let txset = gather txs h.peers [] in
      let limit =
        decide_broadcast_aggressiveness cfg (total_size e.tx_size txs) 1000000000 (length txset) in
      do ps ← send_txs picks limit 0 (order txset) h.peers; some (record h { peers = ps })
