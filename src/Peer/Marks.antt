-- ===== src/Peer/Marks.antt =====
-- What the queued sends mark as known to the peer.
use sonicpeer.Base.{
  ℕ, ◌≡◌, refl, ◌∙◌, ◌⊎◌, inl, inr, true, false, List, [], ◌∷◌, ◌++◌, map, some, Option-cases,
  Bool-cases, ltb, length,
}
use sonicpeer.Env.{Env}
use sonicpeer.Known.Fifo.{IsValid, queue, add-enqueue}
use sonicpeer.Known.Recent.{enqueue_all}
use sonicpeer.Protocol.Code
use sonicpeer.Peer.{Peer, BroadcastItem, mark_transaction, mark_transactions}
use sonicpeer.Peer.Outbox.{send_item, mem_size, enqueued}
use sonicpeer.Peer.Async.{async_send_transactions}

module _ {e : Env} where
  -- Marking touches the cache alone.
  pub mark_transactions-enqueue :
      (hs : List ℕ) (p : Peer e)
      → IsValid p.known_txs
      → (k : _) × (mark_transactions hs p ≡ some (record p { known_txs = k }))
        × IsValid k
        × (queue k ≡ enqueue_all p.known_txs.max hs (queue p.known_txs))
  unfolding mark_transactions mark_transaction
  mark_transactions-enqueue [] p v = (p.known_txs, refl, v, refl)
  mark_transactions-enqueue (h ∷ hs) p v =
      let (k, one, w, cap, front) = add-enqueue v h in
      let (k', rest, u, back) = mark_transactions-enqueue hs (record p { known_txs = k }) w in
      (k', rw one rest, u, back ∙ (λ i. enqueue_all (cap i) hs (front i)))

  -- The two ways in which `send_item` ends.
  send_item-cases :
      (item : BroadcastItem) (p : Peer e)
      → ((s : e.Semaphore) × (send_item item p ≡ (enqueued p s item, true)))
        ⊎ ((s : e.Semaphore) × (send_item item p ≡ (record p { queued_data = s }, false)))
  unfolding send_item
  send_item-cases item p = elim (Option-cases (e.try_acquire p.queued_data (mem_size item.raw))) [
    | inl refused ↦ inr (p.queued_data, rw (refused, send_item))
    | inr (s, granted) ↦ elim (Bool-cases (ltb (length p.queue) p.queue_cap)) [
      | inl room ↦ inl (s, rw (granted, send_item) (rw room))
      | inr full ↦ inr (e.release s (mem_size item.raw), rw (granted, send_item) (rw full))
    ]
  ]

  -- What a send of transactions has done: it has queued the encoded message and marked every hash, or
  -- it has changed neither the queue nor the marks.
  pub record Sent (txs : List e.Tx) (p p' : Peer e) : Type 0 where
    pub raw : List ℕ
    pub encoded : e.encode_txs txs ≡ some raw
    pub queued : p'.queue ≡ p.queue ++ record { code = Code.evm_txs; raw = raw } ∷ []
    pub marked :
        queue p'.known_txs ≡ enqueue_all p.known_txs.max (map e.tx_hash txs) (queue p.known_txs)

  -- `AsyncSendTransactions` marks the transactions as known exactly if it has queued them.
  async_send_transactions-Sent :
      (txs : List e.Tx) (p : Peer e)
      → IsValid p.known_txs
      → (p' : Peer e) × (((async_send_transactions txs p ≡ some (p', true)) × Sent txs p p')
          ⊎ ((async_send_transactions txs p ≡ some (p', false))
              × (p'.queue ≡ p.queue)
              × (p'.known_txs ≡ p.known_txs)))
  unfolding async_send_transactions
  async_send_transactions-Sent txs p v = elim (Option-cases (e.encode_txs txs)) [
    | inl fails ↦ (p, inr (rw (fails, async_send_transactions), refl, refl))
    | inr (raw, ok) ↦ elim (send_item-cases (record { code = Code.evm_txs; raw = raw }) p) [
      | inl (s, r) ↦
          let q : Peer e = enqueued p s (record { code = Code.evm_txs; raw = raw }) in
          let (k, runs, w, front) = mark_transactions-enqueue (map e.tx_hash txs) q v in
          (
            record q { known_txs = k },
            inl (
              rw (ok, async_send_transactions) (rw r (rw runs)),
              record { raw = raw; encoded = ok; queued = refl; marked = front },
            ),
          )
      | inr (s, r) ↦
          (record p { queued_data = s }, inr (rw (ok, async_send_transactions) (rw r), refl, refl))
    ]
  ]
