-- ===== src/Handler/Gossip.antt =====
-- pkg/gossip/handler.go: what the handler does with announced hashes, with transactions and with
-- events. `none` is a panic of the caches of known hashes. What is logged is left out, and so is
-- `receivedAt`, which nothing reads.
pub mod Announced
pub mod Relayed
use sonicpeer.Base.{
  ℕ, ◌+◌, Bool, true, false, not, ◌&&◌, List, [], ◌∷◌, ◌++◌, Option, none, some, if◌then◌else◌, ltb,
  ◌==◌, ◌>>=◌,
}
use sonicpeer.Backend.{get_epoch}
use sonicpeer.Env.{Env}
use sonicpeer.Peer.{Peer, mark_transaction, mark_event}
use sonicpeer.Peer.Request.{request_events, request_transactions}
use sonicpeer.Handler.{Handler, check_new_epoch}

module _ {e : Env} where
  -- The loop over announced hashes, which marks each for the peer and collects those that are not in
  -- the cache of the handler.
  pub announce :
      (ℕ → Peer e → Option (Peer e))
      → List ℕ
      → List ℕ
      → e.Lru
      → Peer e
      → Option (e.Lru × Peer e × List ℕ)
  announce mark [] to_request cache p = some (cache, p, to_request)
  announce mark (id ∷ ids) to_request cache p = do
    p' ← mark id p
    elim (e.lru_contains cache id) [
      | true ↦ announce mark ids to_request cache p'
      | false ↦ announce mark ids (to_request ++ id ∷ []) (e.lru_add cache id) p'
    ]

  -- `handleTxHashes`
  unfoldable pub handle_tx_hashes : List ℕ → Handler e → Peer e → Option (Handler e × Peer e)
  unfolding announce
  handle_tx_hashes announces h p = do
    (cache, p', to_request) ← announce mark_transaction announces [] h.tx_hash_cache p
    (conn, err) ← request_transactions e p'.conn to_request
    some (record h { tx_hash_cache = cache }, record p' { conn = conn })

  -- `handleEventHashes`
  unfoldable pub handle_event_hashes : List ℕ → Handler e → Peer e → Option (Handler e × Peer e)
  unfolding announce
  handle_event_hashes announces h p = do
    let h' = (check_new_epoch h).0
    (cache, p', to_request) ← announce mark_event announces [] h'.event_id_cache p
    (conn, err) ← request_events e p'.conn to_request
    some (record h' { event_id_cache = cache }, record p' { conn = conn })

  -- The two checks of `handleTxs` on a transaction that is not in the cache.
  abbrev pub is_acceptable : Handler e → e.Tx → Bool
  is_acceptable h tx = not (ltb (e.gas_price tx) h.min_gas_price) && e.has_sender tx

  -- The loop of `handleTxs`; the last list has the transactions that the hook has been given.
  pub relay :
      Handler e → List e.Tx → List e.Tx → e.Lru → Peer e → Option (e.Lru × Peer e × List e.Tx)
  relay h [] hooked cache p = some (cache, p, hooked)
  relay h (tx ∷ txs) hooked cache p = do
    p' ← mark_transaction (e.tx_hash tx) p
    elim (not (e.lru_contains cache (e.tx_hash tx)) && is_acceptable h tx) [
      | false ↦ relay h txs hooked cache p'
      | true ↦
          relay h txs (if h.has_new_txs_hook then hooked ++ tx ∷ [] else hooked)
            (e.lru_add cache (e.tx_hash tx)) p'
    ]

  -- `handleTxs`, with the transactions that it hands to the hook
  unfoldable pub handle_txs :
      List e.Tx → Handler e → Peer e → Option (Handler e × Peer e × List e.Tx)
  unfolding relay
  handle_txs txs h p = do
    (cache, p', hooked) ← relay h txs [] h.tx_hash_cache p
    some (record h { tx_hash_cache = cache }, p', hooked)

  -- The loop of `handleEvents`
  note_events : ℕ → List e.Event → e.Lru → Peer e → Option (e.Lru × Peer e)
  note_events epoch [] cache p = some (cache, p)
  note_events epoch (x ∷ xs) cache p = do
    p' ← mark_event (e.event_id x) p
    let adds = e.event_epoch x == epoch && not (e.lru_contains cache (e.event_id x))
    note_events epoch xs (if adds then e.lru_add cache (e.event_id x) else cache) p'

  -- `handleEvents`
  unfoldable pub handle_events : List e.Event → Handler e → Peer e → Option (Handler e × Peer e)
  unfolding note_events
  handle_events events h p = do
    let h' = (check_new_epoch h).0
    (cache, p') ← note_events (get_epoch h'.backend) events h'.event_id_cache p
    some (record h' { event_id_cache = cache }, p')
