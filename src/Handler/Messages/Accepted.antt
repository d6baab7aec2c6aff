-- ===== src/Handler/Messages/Accepted.antt =====
-- What one node sends to another that runs this code.
use sonicpeer.Base.{
  ℕ, ◌≤◌, ◌<◌, ◌≡◌, ◌++◌, subst, some-injective, refl, sym, ap, ◌∙◌, false, List, [], ◌∷◌, none,
  some, arith, All, ltb, length, map, length-map,
}
use sonicpeer.Env.{Env, received, LruLaws, WireLaws}
use sonicpeer.Protocol.Code
use sonicpeer.Peer.{Peer}
use sonicpeer.Peer.Split.{soft_limit_items, split, split-Batches, IsBatch, Batches}
use sonicpeer.Known.Fifo.{IsValid}
use sonicpeer.Handler.{Handler}
use sonicpeer.Handler.Gossip.{handle_txs, handle_tx_hashes}
use sonicpeer.Handler.Gossip.Announced.{handle_tx_hashes-unseen}
use sonicpeer.Handler.Gossip.Relayed.{handle_txs-taken}
use sonicpeer.Handler.Limits.{check_len_limits}
use sonicpeer.Handler.Messages.{
  on_txs, on_tx_hashes, within_limits, dispatch, message_weight, released, handle_msg,
}

pub check_len_limits-IsBatch : (n : ℕ) → 0 < n → n ≤ soft_limit_items → check_len_limits n ≡ none
unfolding check_len_limits
check_len_limits-IsBatch n some' few = ground arith

pub Batches-All :
    {T : Type 0} (size : T → ℕ) (bs : List (List T)) → Batches size bs → All (IsBatch size) bs
Batches-All size [] all = tt
Batches-All size (b ∷ []) all = (all, tt)
Batches-All size (b ∷ b' ∷ bs) all = (all.0, Batches-All size (b' ∷ bs) all.2)

All-middle :
    {A : Type 0} (P : A → Type 0) (before : List A) (x : A) (after : List A)
    → All P (before ++ x ∷ after)
    → P x
All-middle P [] x after all = all.0
All-middle P (y ∷ before) x after all = All-middle P before x after all.1

split-IsBatch :
    {T : Type 0} (size : T → ℕ) (ts : List T) (before after : List (List T)) (b : List T)
    → split size ts ≡ some (before ++ b ∷ after)
    → IsBatch size b
split-IsBatch size ts before after b splits =
    let (bs, runs, batches, joined) = split-Batches size ts in
    All-middle (IsBatch size) before b after (
      subst (All (IsBatch size)) (some-injective (sym runs ∙ splits)) (Batches-All size bs batches))

module _ {e : Env} (wire : WireLaws e) (laws : LruLaws e) where
  pub handle_msg-dispatch :
      (now later code size : ℕ) (body : e.Body) (h : Handler e) (p : Peer e) (s : e.Semaphore)
      → size ≤ e.max_msg_size
      → e.try_acquire h.msg_semaphore (message_weight size) ≡ some s
      → handle_msg now later (received code size body) h p
        ≡ released size (dispatch now later code body (record h { msg_semaphore = s }) p)
  unfolding handle_msg
  handle_msg-dispatch now later code size body h p s small granted =
      let fits : ltb e.max_msg_size size ≡ false = ground (arith, small) in
      rw fits (rw granted refl)

  module _ (now later : ℕ) (body : e.Body) (h h' : Handler e) (p p' : Peer e) where
    pub dispatch-txs :
        (txs news : List e.Tx)
        → e.decode_txs body ≡ some txs
        → check_len_limits (length txs) ≡ none
        → handle_txs txs h p ≡ some (h', p', news)
        → dispatch now later Code.evm_txs body h p ≡ some (h', p', news, none)
    unfolding dispatch on_txs
    dispatch-txs txs news decodes limits runs =
        rw decodes (rw (limits, within_limits) (rw runs refl))

    dispatch-hashes :
        (hashes : List ℕ)
        → e.decode_hashes body ≡ some hashes
        → check_len_limits (length hashes) ≡ none
        → handle_tx_hashes hashes h p ≡ some (h', p')
        → dispatch now later Code.new_evm_tx_hashes body h p ≡ some (h', p', [], none)
    unfolding dispatch on_tx_hashes
    dispatch-hashes hashes decodes limits runs =
        rw decodes (rw (limits, within_limits) (rw runs refl))

  -- A node that runs this code accepts what another one makes of transactions that it splits into batches, the
  -- message with a batch and the message with the hashes of a batch: it handles the transactions, or
  -- the hashes, of the batch and has no error, for messages within the size limit and for which its
  -- semaphore has room, from a peer whose marks are valid.
  split-handled :
      (txs : List e.Tx) (before after : List (List e.Tx)) (batch : List e.Tx) (raw raw' : List ℕ)
      (now later size : ℕ) (h : Handler e) (p : Peer e) (s : e.Semaphore)
      → split e.tx_size txs ≡ some (before ++ batch ∷ after)
      → e.encode_txs batch ≡ some raw
      → e.encode_hashes (map e.tx_hash batch) ≡ some raw'
      → size ≤ e.max_msg_size
      → e.try_acquire h.msg_semaphore (message_weight size) ≡ some s
      → IsValid p.known_txs
      → ((h' : Handler e) × (p' : Peer e) × (news : List e.Tx) × (handle_txs batch
              (record h { msg_semaphore = s })
              p
            ≡ some (h', p', news))
          × (handle_msg now later (received Code.evm_txs size (wire.payload raw)) h p
              ≡ released size (some (h', p', news, none))))
        × ((h' : Handler e) × (p' : Peer e) × (handle_tx_hashes
                (map e.tx_hash batch)
                (record h { msg_semaphore = s })
                p
              ≡ some (h', p'))
            × (handle_msg now later (received Code.new_evm_tx_hashes size (wire.payload raw')) h p
                ≡ released size (some (h', p', [], none))))
  split-handled txs before after batch raw raw' now later size h p s splits encodes encodes' small
        granted valid =
      let h₁ : Handler e = record h { msg_semaphore = s } in
      let hashes = map e.tx_hash batch in
      let is_batch = split-IsBatch e.tx_size txs before after batch splits in
      let same = length-map e.tx_hash batch in
      let (_, runs, _, _, _) = handle_txs-taken h₁ laws batch p valid in
      let (_, _, runs', _, _, _, _) = handle_tx_hashes-unseen laws hashes h₁ p valid in
      let limits = check_len_limits-IsBatch (length batch) is_batch.some_item is_batch.few_items in
      let limits' =
        check_len_limits-IsBatch (length hashes) (omega (arith, is_batch.some_item, same))
          (omega (arith, is_batch.few_items, same)) in
      (
        (
          _,
          _,
          _,
          runs,
          handle_msg-dispatch now later Code.evm_txs size (wire.payload raw) h p s small granted
              ∙ ap (released size) (
                  dispatch-txs now later (wire.payload raw) h₁ _ p _ batch _
                    (wire.decode-encode_txs batch raw encodes) limits runs),
        ),
        (
          _,
          _,
          runs',
          handle_msg-dispatch now later Code.new_evm_tx_hashes size (wire.payload raw') h p s small
                granted
              ∙ ap (released size) (
                  dispatch-hashes now later (wire.payload raw') h₁ _ p _ hashes
                    (wire.decode-encode_hashes hashes raw' encodes') limits' runs'),
        ),
      )
