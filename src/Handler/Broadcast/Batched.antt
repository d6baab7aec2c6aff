-- ===== src/Handler/Broadcast/Batched.antt =====
-- The calls that queue transactions for a peer with a valid cache return, and the cache stays valid.
use sonicpeer.Base.{
  ℕ, ◌≡◌, refl, sym, subst, ◌∙◌, inl, inr, Bool, true, false, List, [], ◌∷◌, map, Option, some,
  arith, Option-cases,
}
use sonicpeer.Env.{Env}
use sonicpeer.Protocol.Code
use sonicpeer.Known.Fifo.{IsValid}
use sonicpeer.Peer.{Peer, BroadcastItem, mark_transactions}
use sonicpeer.Peer.Outbox.{send_item, async_send_encoded_item}
use sonicpeer.Peer.Async.{mark_if, async_send_transactions, async_send_transaction_hashes}
use sonicpeer.Peer.Marks.{mark_transactions-enqueue}
use sonicpeer.Handler.Broadcast.{send_batches}

module _ {e : Env} where
  -- A call on a peer returns, and the peer keeps its id and a valid cache.
  abbrev Keeps : Option (Peer e × Bool) → Peer e → Type 0
  Keeps r p =
      (q : Peer e) × (q.id ≡ p.id) × IsValid q.known_txs × (sent : Bool) × (r ≡ some (q, sent))

  send_item-keeps :
      (item : BroadcastItem) (p : Peer e)
      → ((send_item item p).0.id ≡ p.id) × ((send_item item p).0.known_txs ≡ p.known_txs)
  unfolding send_item
  send_item-keeps item p = ground arith

  async_send_encoded_item-keeps :
      (picks : Bool) (raw : List ℕ) (code : ℕ) (p : Peer e)
      → ((async_send_encoded_item picks raw code p).0.id ≡ p.id)
        × ((async_send_encoded_item picks raw code p).0.known_txs ≡ p.known_txs)
  unfolding async_send_encoded_item
  async_send_encoded_item-keeps picks raw code p = ground arith

  mark_if-Keeps :
      (hs : List ℕ) (x : Peer e × Bool) (p : Peer e)
      → (x.0.id ≡ p.id) × (x.0.known_txs ≡ p.known_txs)
      → IsValid p.known_txs
      → Keeps (mark_if mark_transactions hs x) p
  mark_if-Keeps hs (q, true) p (same, cache) v =
      let (k, runs, valid, front) = mark_transactions-enqueue hs q (subst IsValid (sym cache) v) in
      (record q { known_txs = k }, same, valid, true, rw runs refl)
  mark_if-Keeps hs (q, false) p (same, cache) v =
      (q, same, subst IsValid (sym cache) v, false, refl)

  async_send_transactions-Keeps :
      (txs : List e.Tx) (p : Peer e) → IsValid p.known_txs → Keeps (async_send_transactions txs p) p
  unfolding async_send_transactions
  async_send_transactions-Keeps txs p v = elim (Option-cases (e.encode_txs txs)) [
    | inl fails ↦ (p, refl, v, false, rw (fails, async_send_transactions) refl)
    | inr (raw, ok) ↦
        let item : BroadcastItem = record { code = Code.evm_txs; raw = raw } in
        let (q, same, valid, sent, does) =
          mark_if-Keeps (map e.tx_hash txs) (send_item item p) p (send_item-keeps item p) v in
        (q, same, valid, sent, rw (ok, async_send_transactions) does)
  ]

  async_send_transaction_hashes-Keeps :
      (picks : Bool) (hs : List ℕ) (p : Peer e)
      → IsValid p.known_txs
      → Keeps (async_send_transaction_hashes picks hs p) p
  unfolding async_send_transaction_hashes
  async_send_transaction_hashes-Keeps picks hs p v = elim (Option-cases (e.encode_hashes hs)) [
    | inl fails ↦ (p, refl, v, false, rw (fails, async_send_transaction_hashes) refl)
    | inr (raw, ok) ↦
        let (q, same, valid, sent, does) =
          mark_if-Keeps hs (async_send_encoded_item picks raw Code.new_evm_tx_hashes p) p
            (async_send_encoded_item-keeps picks raw Code.new_evm_tx_hashes p) v in
        (q, same, valid, sent, rw (ok, async_send_transaction_hashes) does)
  ]

  pub send_batches-Keeps :
      (full picks : Bool) (batches : List (List e.Tx)) (p : Peer e)
      → IsValid p.known_txs
      → (q : Peer e) × (q.id ≡ p.id)
        × IsValid q.known_txs
        × (send_batches full picks batches p ≡ some q)
  unfolding send_batches
  send_batches-Keeps full picks [] p v = (p, refl, v, refl)
  send_batches-Keeps true picks (batch ∷ batches) p v =
      let (q, same, valid, sent, does) = async_send_transactions-Keeps batch p v in
      let (r, same', valid', does') = send_batches-Keeps true picks batches q valid in
      (r, same' ∙ same, valid', rw does does')
  send_batches-Keeps false picks (batch ∷ batches) p v =
      let (q, same, valid, sent, does) =
        async_send_transaction_hashes-Keeps picks (map e.tx_hash batch) p v in
      let (r, same', valid', does') = send_batches-Keeps false picks batches q valid in
      (r, same' ∙ same, valid', rw does does')
