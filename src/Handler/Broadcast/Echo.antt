-- ===== src/Handler/Broadcast/Echo.antt =====
-- What is not sent back to the peer that it came from.
use sonicpeer.Base.{
  ℕ, ◌≤◌, ◌≡◌, refl, sym, ap, subst, ◌∙◌, inl, inr, true, false, List, [], ◌∷◌, some, arith, map,
  member, length, length-map, some-injective, Bool-cases, ◌==◌,
}
use sonicpeer.Env.{Env}
use sonicpeer.Known
use sonicpeer.Known.Fifo.{IsValid, queue, member-queue}
use sonicpeer.Known.Recent.{enqueue_all-member}
use sonicpeer.Peer.{Peer}
use sonicpeer.PeerSet.{PeerSet, peer}
use sonicpeer.PeerSet.Keyed.{IsKeyed}
use sonicpeer.Handler.{Handler}
use sonicpeer.Handler.Broadcast.{txs_of, gather}
use sonicpeer.Handler.Broadcast.Offered.{unknown, gather-unknown}
use sonicpeer.Handler.Gossip.{handle_txs}
use sonicpeer.Handler.Gossip.Relayed.{relay-Relays}

module _ {e : Env} where
  keep-known :
      (p : Peer e) (hash : ℕ) (txs : List e.Tx)
      → Known.contains p.known_txs hash ≡ true
      → member hash (map e.tx_hash (unknown txs (some p))) ≡ false
  keep-known p hash [] known = refl
  keep-known p hash (tx ∷ txs) known =
      elim (Bool-cases (Known.contains p.known_txs (e.tx_hash tx))) [
        | inl there ↦ rw there (keep-known p hash txs known)
        | inr new ↦ elim (Bool-cases (e.tx_hash tx == hash)) [
          | inl same ↦
              let key : e.tx_hash tx ≡ hash = ground (arith, same) in
              absurd (ground (arith, sym known ∙ ap (Known.contains p.known_txs) (sym key) ∙ new))
          | inr other ↦ rw new (rw other (keep-known p hash txs known))
        ]
      ]

  marked :
      (txs : List e.Tx) (h h' : Handler e) (p p' : Peer e) (news : List e.Tx) (hash : ℕ)
      → IsValid p.known_txs
      → handle_txs txs h p ≡ some (h', p', news)
      → length txs ≤ p.known_txs.max
      → member hash (map e.tx_hash txs) ≡ true
      → Known.contains p.known_txs hash ≡ false
      → Known.contains p'.known_txs hash ≡ true
  unfolding handle_txs
  marked txs h h' p p' news hash valid runs few there new =
      let r = relay-Relays h txs [] h.tx_hash_cache p valid in
      let same : r.known ≡ p'.known_txs =
        ap (λ x. x.1.known_txs) (some-injective (rw r.runs at runs)) in
      subst (λ k. Known.contains k hash ≡ true) same
        (sym (member-queue r.valid hash)
          ∙ ap (member hash) r.marked
          ∙ enqueue_all-member p.known_txs.max hash (map e.tx_hash txs) (queue p.known_txs)
              (member-queue valid hash ∙ new) there (omega (arith, few, length-map e.tx_hash txs)))

  -- A transaction is not echoed: after `handleTxs` on a message of a peer that was not known to have the
  -- transaction, whose cache is valid and has room for as many hashes as the message has, no broadcast
  -- of any transactions offers it to that peer, as long as the peer is registered with these marks.
  pub handle_txs-gather :
      (txs later : List e.Tx) (h h' : Handler e) (p p' : Peer e) (news : List e.Tx) (ps : PeerSet e)
      (hash : ℕ)
      → IsValid p.known_txs
      → handle_txs txs h p ≡ some (h', p', news)
      → length txs ≤ p.known_txs.max
      → member hash (map e.tx_hash txs) ≡ true
      → Known.contains p.known_txs hash ≡ false
      → IsKeyed ps.peers
      → peer p'.id ps ≡ some p'
      → member hash (map e.tx_hash (txs_of p'.id (gather {e = e} later ps []))) ≡ false
  handle_txs-gather txs later h h' p p' news ps hash valid runs few there new keyed registered =
      ap (λ l. member hash (map e.tx_hash l))
        (gather-unknown later ps p'.id keyed ∙ ap (unknown later) registered)
      ∙ keep-known p' hash later (marked txs h h' p p' news hash valid runs few there new)
