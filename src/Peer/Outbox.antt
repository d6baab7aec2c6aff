-- ===== src/Peer/Outbox.antt =====
-- pkg/gossip/peer.go: the queue of broadcasts of a peer, a channel of `queue_cap` items guarded by a
-- semaphore over their sizes. A channel without a buffer never has room here. A call of `Acquire` that
-- waits is `try_acquire` at the moment when it ends, and a `select` that waits ends in the case that
-- the argument `joins` names: the item joins the queue, or the peer has terminated.
use sonicpeer.Base.{
  ℕ, ◌+◌, Bool, true, false, not, ◌&&◌, List, [], ◌∷◌, ◌++◌, Option, none, some, if◌then◌else◌, ltb,
  length,
}
use sonicpeer.Env.{Env, Metric}
use sonicpeer.Peer.{Peer, BroadcastItem}

-- `memSize`
unfoldable pub mem_size : List ℕ → Metric
mem_size raw = record { num = 1; size = length raw + 1024 }

module _ {e : Env} where
  -- What the successful branches of the sends do.
  abbrev pub enqueued : Peer e → e.Semaphore → BroadcastItem → Peer e
  enqueued p s item = record p { queue = p.queue ++ item ∷ []; queued_data = s }

  -- The size of the item is given back.
  abbrev pub given_back : Peer e → e.Semaphore → BroadcastItem → Peer e
  given_back p s item = record p { queued_data = e.release s (mem_size item.raw) }

  -- `sendItem`
  unfoldable pub send_item : BroadcastItem → Peer e → Peer e × Bool
  send_item item p = elim (e.try_acquire p.queued_data (mem_size item.raw)) [
    | none ↦ (p, false)
    | some s ↦
        if ltb (length p.queue) p.queue_cap
        then (enqueued p s item, true)
        else (given_back p s item, false)
  ]

  -- `asyncSendEncodedItem`. Where the channel has room and the peer has terminated, `select` may take
  -- either case: it takes the termination if `picks_term` is true.
  unfoldable pub async_send_encoded_item : Bool → List ℕ → ℕ → Peer e → Peer e × Bool
  async_send_encoded_item picks_term raw code p =
      let item : BroadcastItem = record { code = code; raw = raw } in
      elim (e.try_acquire p.queued_data (mem_size raw)) [
        | none ↦ (p, false)
        | some s ↦
            if ltb (length p.queue) p.queue_cap && not (p.terminated && picks_term)
            then (enqueued p s item, true)
            else (given_back p s item, false)
      ]

  -- The `Acquire` of `enqueueSendEncodedItem`. `none`: the semaphore stays full until the timeout, and
  -- the call returns.
  unfoldable pub acquire_item : List ℕ → Peer e → Option (Peer e)
  acquire_item raw p = elim (e.try_acquire p.queued_data (mem_size raw)) [
    | none ↦ none
    | some s ↦ some (record p { queued_data = s })
  ]

  -- The `select` of `enqueueSendEncodedItem`, with the size of the item held, and what follows. `false`:
  -- the `select` cannot end this way now, and the call still waits.
  unfoldable pub select_item : Bool → BroadcastItem → Peer e → Peer e × Bool
  select_item joins item p =
      if joins
      then if ltb (length p.queue) p.queue_cap
        then (enqueued p p.queued_data item, true)
        else (p, false)
      else if p.terminated
      then (given_back p p.queued_data item, true)
      else (p, false)

  -- `enqueueSendEncodedItem`. `meanwhile` is what other calls do while this one waits in its `select`,
  -- and the Boolean says whether the call returns; one that still waits holds the size of its item.
  unfoldable pub enqueue_send_encoded_item :
      Bool → (Peer e → Peer e) → List ℕ → ℕ → Peer e → Peer e × Bool
  unfolding acquire_item select_item
  enqueue_send_encoded_item joins meanwhile raw code p = elim (acquire_item raw p) [
    | none ↦ (p, true)
    | some p' ↦ select_item joins (record { code = code; raw = raw }) (meanwhile p')
  ]

  -- One round of `broadcast`, in three steps: an item leaves the queue,
  unfoldable pub take_item : Peer e → Option (BroadcastItem × Peer e)
  take_item p = elim p.queue [ [] ↦ none | item ∷ rest ↦ some (item, record p { queue = rest }) ]

  -- is written to the connection,
  unfoldable pub write_item : BroadcastItem → Peer e → Peer e
  write_item item p = let (conn, err) = e.send p.conn item.code item.raw in record p { conn = conn }

  -- and its size is given back, also where the write has failed.
  unfoldable pub release_item : BroadcastItem → Peer e → Peer e
  release_item item p = given_back p p.queued_data item

  -- `Close`, less what the semaphore does when it is terminated.
  unfoldable pub close : Peer e → Peer e
  close p = record p { terminated = true }
