-- ===== src/Backend.antt =====
-- pkg/gossip/backend.go: the client of the trusted backend node. A call of its RPC is the reply that
-- the call gets; `NodeProgressLoop` is the list of what its `select` receives.
mod Tests
pub mod Laws
use sonicpeer.Base.{
  ℕ, suc, ◌+◌, ◌-◌, ◌%◌, ◌^◌, ◌≡◌, refl, ◌≢◌, ◌⊎◌, inl, inr, Bool, true, false, List, [], ◌∷◌, ◌++◌,
  Option, none, some, arith, if◌then◌else◌, ◌==◌,
}
use sonicpeer.Env.{Env}
use sonicpeer.Protocol.{PeerProgress}

-- `block`
pub record Block : Type 0 where
  pub number : Option ℕ
  pub epoch : ℕ
  pub atropos : ℕ

-- What `rpc.Call` gives: an error, or the decoded block.
pub data Reply : Type 0 where
  failed : ℕ → Reply
  answered : Block → Reply

-- The errors of `fetchNodeProgress`.
pub data FetchError : Type 0 where
  call_failed : ℕ → FetchError
  no_number epoch_zero : FetchError

pub data Fetched : Type 0 where
  ok : PeerProgress → Fetched
  err : FetchError → Fetched

-- `backendClient`, less its connection
pub record BackendClient : Type 0 where
  pub progress : Option PeerProgress

abbrev zero_progress : PeerProgress
zero_progress = record {
  epoch = 0;
  last_block_idx = 0;
  last_block_atropos = 0;
  highest_lamport = 0;
}

-- `NodeProgress`
unfoldable pub node_progress : BackendClient → PeerProgress
node_progress c = elim c.progress [ none ↦ zero_progress | some p ↦ p ]

-- `GetEpoch`
unfoldable pub get_epoch : BackendClient → ℕ
get_epoch c = elim c.progress [ none ↦ 0 | some p ↦ p.epoch ]

-- What the `select` of `NodeProgressLoop` receives: a new head, with the reply to the fetch that
-- follows it, or the stop.
pub data LoopEvent : Type 0 where
  new_head : Reply → LoopEvent
  stop : LoopEvent

module _ (e : Env) where
  -- The part of `fetchNodeProgress` for a block that has a number.
  unfoldable pub progress_of : Block → ℕ → PeerProgress
  progress_of head number = record {
    epoch = e.to_epoch head.epoch;
    last_block_idx = number % 2 ^ 64;
    last_block_atropos = head.atropos;
    highest_lamport = 0;
  }

  -- `fetchNodeProgress`
  unfoldable pub fetch_node_progress : Reply → Fetched
  fetch_node_progress (failed x) = err (call_failed x)
  fetch_node_progress (answered head) = elim head.number [
    | none ↦ err no_number
    | some number ↦ if head.epoch == 0 then err epoch_zero else ok (progress_of head number)
  ]

  -- `Init`
  unfoldable pub init : Reply → BackendClient → BackendClient × Option FetchError
  unfolding fetch_node_progress progress_of
  init reply c = elim (fetch_node_progress reply) [
    | ok p ↦ (record c { progress = some p }, none)
    | err x ↦ (c, some x)
  ]

  -- The loop once it has subscribed: the client, and whether the loop has returned. It calls
  -- `wg.Done` as it returns.
  unfoldable pub progress_loop : List LoopEvent → BackendClient → BackendClient × Bool
  unfolding fetch_node_progress progress_of
  progress_loop [] c = (c, false)
  progress_loop (stop ∷ events) c = (c, true)
  progress_loop (new_head reply ∷ events) c =
      progress_loop events
        (elim (fetch_node_progress reply) [ ok p ↦ record c { progress = some p } | err _ ↦ c ])

  -- `NodeProgressLoop`: the client, whether the loop has returned, and the count of the wait group.
  -- Where the subscription fails it returns above the `defer wg.Done()`.
  unfoldable pub node_progress_loop :
      Bool → List LoopEvent → BackendClient × ℕ → (BackendClient × Bool) × ℕ
  unfolding progress_loop
  node_progress_loop false events (c, wg) = ((c, true), wg)
  node_progress_loop true events (c, wg) =
      let (c', returned) = progress_loop events c in
      ((c', returned), if returned then wg - 1 else wg)
