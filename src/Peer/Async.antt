-- ===== src/Peer/Async.antt =====
-- pkg/gossip/peer.go: the calls that queue a message for a peer and then mark what it carries. An item
-- that cannot be encoded is dropped. `none` is a panic of the caches.
use sonicpeer.Base.{ℕ, Bool, true, false, List, map, Option, none, some, ◌>>=◌}
use sonicpeer.Env.{Env}
use sonicpeer.Protocol.Code
use sonicpeer.Peer.{Peer, mark_transactions, mark_events}
use sonicpeer.Peer.Outbox.{send_item, async_send_encoded_item, enqueue_send_encoded_item}

module _ {e : Env} where
  -- Hashes are marked only if the message was queued, or the call that queues it has returned.
  abbrev pub mark_if :
      (List ℕ → Peer e → Option (Peer e)) → List ℕ → Peer e × Bool → Option (Peer e × Bool)
  mark_if mark hs (p, true) = do p' ← mark hs p; some (p', true)
  mark_if mark hs (p, false) = some (p, false)

  -- `AsyncSendTransactions`; the result says whether the message was queued.
  unfoldable pub async_send_transactions : List e.Tx → Peer e → Option (Peer e × Bool)
  async_send_transactions txs p = elim (e.encode_txs txs) [
    | none ↦ some (p, false)
    | some raw ↦
        mark_if mark_transactions (map e.tx_hash txs)
          (send_item (record { code = Code.evm_txs; raw = raw }) p)
  ]

  -- `AsyncSendTransactionHashes`
  unfoldable pub async_send_transaction_hashes : Bool → List ℕ → Peer e → Option (Peer e × Bool)
  async_send_transaction_hashes picks txids p = elim (e.encode_hashes txids) [
    | none ↦ some (p, false)
    | some raw ↦
        mark_if mark_transactions txids (async_send_encoded_item picks raw Code.new_evm_tx_hashes p)
  ]

  -- `AsyncSendEventIDs`
  unfoldable pub async_send_event_ids : Bool → List ℕ → Peer e → Option (Peer e × Bool)
  async_send_event_ids picks ids p = elim (e.encode_hashes ids) [
    | none ↦ some (p, false)
    | some raw ↦ mark_if mark_events ids (async_send_encoded_item picks raw Code.new_event_ids p)
  ]

  -- `AsyncSendEvents`
  unfoldable pub async_send_events : Bool → List e.Event → Peer e → Option (Peer e × Bool)
  async_send_events picks events p = elim (e.encode_events events) [
    | none ↦ some (p, false)
    | some raw ↦
        mark_if mark_events (map e.event_id events)
          (async_send_encoded_item picks raw Code.events p)
  ]

  -- `EnqueueSendTransactions`; the result says whether the call returns, as that of
  -- `enqueue_send_encoded_item` does.
  unfoldable pub enqueue_send_transactions :
      Bool → (Peer e → Peer e) → List e.Tx → Peer e → Option (Peer e × Bool)
  enqueue_send_transactions joins meanwhile txs p = elim (e.encode_txs txs) [
    | none ↦ some (p, true)
    | some raw ↦
        mark_if mark_transactions (map e.tx_hash txs)
          (enqueue_send_encoded_item joins meanwhile raw Code.evm_txs p)
  ]
