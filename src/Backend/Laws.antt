-- ===== src/Backend/Laws.antt =====
-- What the backend client knows of its node, and when its loop lets the handler stop.
use sonicpeer.Base.{
  ℕ, ◌+◌, ◌<◌, ◌≡◌, refl, ◌≢◌, ◌⊎◌, inl, inr, Bool, true, List, [], ◌∷◌, none, some, arith,
  if◌then◌else◌, ◌==◌, Option-cases, Bool-cases,
}
use sonicpeer.Env.{Env}
use sonicpeer.Protocol.{PeerProgress}
use sonicpeer.Backend.{
  Block, Reply, failed, answered, FetchError, call_failed, no_number, epoch_zero, ok, err,
  BackendClient, LoopEvent, new_head, stop, progress_of, fetch_node_progress, init, progress_loop,
  node_progress_loop,
}

module _ (e : Env) where
  -- A progress that some block of the backend reports, with a number and an epoch that is not 0.
  pub record IsReported (p : PeerProgress) : Type 0 where
    pub block : Block
    pub number : ℕ
    pub numbered : block.number ≡ some number
    pub epoch_set : block.epoch ≢ 0
    pub read : p ≡ progress_of e block number

  pub fetch_cases :
      (r : Reply)
      → ((p : PeerProgress) × (fetch_node_progress e r ≡ ok p) × IsReported p)
        ⊎ ((x : FetchError) × (fetch_node_progress e r ≡ err x))
  unfolding fetch_node_progress progress_of
  fetch_cases (failed x) = inr (call_failed x, refl)
  fetch_cases (answered b) = elim (Option-cases b.number) [
    | inl missing ↦ inr (no_number, rw (missing, fetch_node_progress))
    | inr (n, numbered) ↦ elim (Bool-cases (b.epoch == 0)) [
      | inl zero' ↦ inr (epoch_zero, rw (numbered, fetch_node_progress) (rw zero'))
      | inr set' ↦ inl (
        progress_of e b n,
        rw (numbered, fetch_node_progress) (rw set'),
        record {
          block = b;
          number = n;
          numbered = numbered;
          epoch_set = ground arith;
          read = refl;
        },
      )
    ]
  ]

  -- `Init` either fails and leaves the client as it was, or stores a progress that the backend reported.
  init-IsReported :
      (r : Reply) (c : BackendClient)
      → ((init e r c).0 ≡ c × ((x : FetchError) × ((init e r c).1 ≡ some x)))
        ⊎ (((p : PeerProgress) × ((init e r c).0.progress ≡ some p) × IsReported p)
            × ((init e r c).1 ≡ none))
  unfolding init
  init-IsReported r c = elim (fetch_cases r) [
    | inl (p, fetched, good) ↦ rw (fetched, init) (inr ((p, refl, good), refl))
    | inr (x, fails) ↦ rw (fails, init) (inl (refl, (x, refl)))
  ]

  -- A client that has been initialised keeps a reported progress, whatever the loop receives.
  progress_loop-IsReported :
      (events : List LoopEvent) (c : BackendClient) (p : PeerProgress)
      → c.progress ≡ some p
      → IsReported p
      → (q : PeerProgress) × ((progress_loop e events c).0.progress ≡ some q) × IsReported q
  unfolding progress_loop
  progress_loop-IsReported [] c p h good = (p, h, good)
  progress_loop-IsReported (stop ∷ events) c p h good = (p, h, good)
  progress_loop-IsReported (new_head r ∷ events) c p h good = elim (fetch_cases r) [
    | inl (q, fetched, good') ↦
        rw (fetched, progress_loop)
          (progress_loop-IsReported events (record c { progress = some q }) q refl good')
    | inr (x, fails) ↦ rw (fails, progress_loop) (progress_loop-IsReported events c p h good)
  ]

  -- A loop that has returned has called `Done` exactly if it had subscribed: after a failed
  -- subscription the wait group still counts it.
  node_progress_loop-wg :
      (subscribed : Bool) (events : List LoopEvent) (c : BackendClient) (wg : ℕ)
      → 0 < wg
      → (node_progress_loop e subscribed events (c, wg)).0.1 ≡ true
      → (node_progress_loop e subscribed events (c, wg)).1 + (if subscribed then 1 else 0) ≡ wg
  unfolding node_progress_loop
  node_progress_loop-wg subscribed events c wg pos returned = ground arith
