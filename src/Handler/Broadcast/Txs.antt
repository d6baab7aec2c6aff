-- ===== src/Handler/Broadcast/Txs.antt =====
-- BroadcastTxs as a whole.
use sonicpeer.Base.{
  ℕ, ◌+◌, ◌<◌, ◌≡◌, refl, sym, ap, subst, ◌∙◌, inl, inr, Bool, false, List, [], ◌∷◌, ◌++◌, some,
  arith, some-injective, if◌then◌else◌, ltb, ◌==◌, length, length-append, store, store-Distinct,
  All-lookup, All, Bool-cases, Option-cases,
}
use sonicpeer.Env.{Env}
use sonicpeer.Known.Fifo.{IsValid}
use sonicpeer.Peer.{Peer}
use sonicpeer.Peer.Split.{split-Batches}
use sonicpeer.PeerSet.{PeerSet, peer, peers_without_tx, update}
use sonicpeer.PeerSet.Keyed.{IsKeyed}
use sonicpeer.Handler.{Handler}
use sonicpeer.Handler.Aggressiveness.{Tradeoff, decide_broadcast_aggressiveness}
use sonicpeer.Handler.Broadcast.{txs_of, give, gather, total_size, send_txs, broadcast_txs}
use sonicpeer.Handler.Broadcast.Batched.{send_batches-Keeps}
use sonicpeer.Handler.Broadcast.Offered.{unknown, gather-unknown}
use sonicpeer.Handler.Broadcast.Txset.{IsTxset, store-All, absent_from}
use sonicpeer.Handler.Broadcast.Sent.{peer-update}

module _ {e : Env} where
  -- Every peer is registered under its id, and its cache of transactions is valid.
  abbrev pub AllValid : PeerSet e → Type 0
  AllValid ps = (j : ℕ) (p : Peer e) → peer j ps ≡ some p → (p.id ≡ j) × IsValid p.known_txs

  update-AllValid :
      (q p : Peer e) (ps : PeerSet e)
      → peer p.id ps ≡ some p
      → q.id ≡ p.id
      → IsValid q.known_txs
      → AllValid ps
      → AllValid (update q ps)
  update-AllValid q p ps here same v all j r found =
      let written = peer-update q p ps j here same in
      elim (Bool-cases (p.id == j)) [
        | inl own ↦
            let is_q : q ≡ r = some-injective (sym (written ∙ rw own refl) ∙ found) in
            let id' : q.id ≡ j = ground (arith, same) in
            subst (λ x. (x.id ≡ j) × IsValid x.known_txs) is_q (id', v)
        | inr other ↦ all j r (sym (written ∙ rw other refl) ∙ found)
      ]

  unwritten :
      (p q : Peer e) (id : ℕ) (ps : PeerSet e) (j : ℕ)
      → p.id ≡ id
      → (id == j) ≡ false
      → (if p.id == j then some q else peer j ps) ≡ peer j ps
  unwritten p q id ps j own other =
      let other' : (p.id == j) ≡ false = ap (λ k. k == j) own ∙ other in rw other' refl

  send_txs-AllValid :
      (picks : ℕ → Bool) (limit i : ℕ) (m : List (ℕ × List e.Tx)) (ps : PeerSet e)
      → AllValid ps
      → (ps' : PeerSet e) × (send_txs picks limit i m ps ≡ some ps')
        × AllValid ps'
        × ((j : ℕ) → All (λ x. (x.0 == j) ≡ false) m → peer j ps' ≡ peer j ps)
  unfolding send_txs
  send_txs-AllValid picks limit i [] ps all = (ps, refl, all, λ j h. refl)
  send_txs-AllValid picks limit i ((id, txs) ∷ m) ps all = elim (Option-cases (peer id ps)) [
    | inl gone ↦
        let (ps', runs, all', still) = send_txs-AllValid picks limit (i + 1) m ps all in
        (ps', rw (gone, send_txs) runs, all', λ j h. still j h.1)
    | inr (p, found) ↦
        let (own, v) = all id p found in
        let (batches, splits, bounded, whole) = split-Batches e.tx_size txs in
        let (q, same, v', does) = send_batches-Keeps (ltb i limit) (picks id) batches p v in
        let here : peer p.id ps ≡ some p = subst (λ k. peer k ps ≡ some p) (sym own) found in
        let (ps', runs, all', still) =
          send_txs-AllValid picks limit (i + 1) m (update q ps)
            (update-AllValid q p ps here same v' all) in
        (
          ps',
          rw (found, send_txs) (rw splits (rw does runs)),
          all',
          λ j h. still j h.1 ∙ peer-update q p ps j here same ∙ unwritten p q id ps j own h.0,
        )
  ]

  give-IsTxset :
      (tx : e.Tx) (l : List (Peer e)) (m : List (ℕ × List e.Tx))
      → IsTxset m
      → IsTxset (give {e = e} tx l m)
  unfolding give
  give-IsTxset tx [] m s = s
  give-IsTxset tx (p ∷ l) m (dist, full) =
      let more = txs_of p.id m ++ tx ∷ [] in
      give-IsTxset tx l (store p.id more m) (
        store-Distinct p.id more m dist,
        store-All (λ x. 0 < length x.1) p.id more m
            (omega (arith, length-append (txs_of p.id m) (tx ∷ []))) full,
      )

  gather-IsTxset :
      (txs : List e.Tx) (ps : PeerSet e) (m : List (ℕ × List e.Tx))
      → IsTxset m
      → IsTxset (gather {e = e} txs ps m)
  unfolding gather
  gather-IsTxset [] ps m s = s
  gather-IsTxset (tx ∷ txs) ps m s =
      gather-IsTxset txs ps (give {e = e} tx (peers_without_tx (e.tx_hash tx) ps) m)
        (give-IsTxset tx (peers_without_tx (e.tx_hash tx) ps) m s)

  -- A peer that is offered nothing has no entry.
  gather-absent :
      (txs : List e.Tx) (ps : PeerSet e) (j : ℕ)
      → IsKeyed ps.peers
      → unknown txs (peer j ps) ≡ []
      → All (λ x. (x.0 == j) ≡ false) (gather {e = e} txs ps [])
  gather-absent txs ps j keyed none_new =
      let txset = gather {e = e} txs ps [] in
      let (dist, full) = gather-IsTxset txs ps [] (tt, tt) in
      absent_from j txset txset (gather-unknown txs ps j keyed ∙ none_new) (All-lookup txset dist)
        full

  -- BroadcastTxs, for registered peers under distinct ids with valid caches, always returns, whatever
  -- the order in which it visits the peers. It writes to the peers alone, the caches stay valid, and a
  -- peer that is known to have all of the transactions is as it was.
  pub broadcast_txs-AllValid :
      (picks : ℕ → Bool) (order : List (ℕ × List e.Tx) → List (ℕ × List e.Tx)) (cfg : Tradeoff)
      (txs : List e.Tx) (h : Handler e)
      → ((P : ℕ × List e.Tx → Type 0) (m : List (ℕ × List e.Tx)) → All P m → All P (order m))
      → IsKeyed h.peers.peers
      → AllValid h.peers
      → (h' : Handler e) × (broadcast_txs picks order cfg txs h ≡ some h')
        × (h' ≡ record h { peers = h'.peers })
        × AllValid h'.peers
        × ((j : ℕ) → unknown txs (peer j h.peers) ≡ [] → peer j h'.peers ≡ peer j h.peers)
  unfolding broadcast_txs
  broadcast_txs-AllValid picks order cfg txs h reorders keyed all =
      let txset = gather {e = e} txs h.peers [] in
      let limit =
        decide_broadcast_aggressiveness cfg (total_size e.tx_size txs) 1000000000 (length txset) in
      let (ps, runs, all', still) = send_txs-AllValid picks limit 0 (order txset) h.peers all in
      (
        record h { peers = ps },
        rw runs refl,
        refl,
        all',
        λ j none_new. still j (reorders _ txset (gather-absent txs h.peers j keyed none_new)),
      )
