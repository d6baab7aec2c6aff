-- ===== src/Handler/Creation/Ready.antt =====
-- What a handler that newHandler makes is ready for.
use sonicpeer.Base.{
  ℕ, ◌*◌, ◌≤◌, ◌≡◌, refl, ap, ◌⊎◌, inl, inr, false, Option, none, some, arith, ltb, Option-cases,
}
use sonicpeer.Backend.{
  Reply, FetchError, ok, err, BackendClient, init, fetch_node_progress, get_epoch,
}
use sonicpeer.Backend.Laws.{IsReported, fetch_cases}
use sonicpeer.Config.{Config, validate}
use sonicpeer.Env.{Env, received, Makers, SemaphoreLaws, MakersLaws}
use sonicpeer.Handler.{Handler}
use sonicpeer.Handler.Creation.{
  HandlerConfig, CreationError, dial_failed, init_failed, cache_failed, made, no_handler, new_state,
  new_handler,
}
use sonicpeer.Handler.Messages.{dispatch, message_weight, released, handle_msg}
use sonicpeer.Peer.{Peer}
use sonicpeer.PeerSet.{new_peer_set}
use sonicpeer.Protocol.{PeerProgress}

module _ {e : Env} where
  -- What holds of a handler before its first peer.
  pub record Ready (h : Handler e) : Type 0 where
    pub no_peers : h.peers ≡ new_peer_set
    pub progress : PeerProgress
    pub known : h.backend.progress ≡ some progress
    pub reported : IsReported e progress
    pub tracked : h.tracked_epoch ≡ progress.epoch
    pub dispatches :
        (now later code size : ℕ) (body : e.Body) (p : Peer e)
        → size ≤ e.max_msg_size
        → (s : e.Semaphore) × (handle_msg now later (received code size body) h p
            ≡ released size (dispatch now later code body (record h { msg_semaphore = s }) p))

  -- Why newHandler fails.
  pub data Causes (makers : Makers e) (dial : Option ℕ) (reply : Reply)
      : CreationError → Type 0 where
    no_dial : (x : ℕ) → dial ≡ some x → Causes makers dial reply (dial_failed x)
    no_progress :
        (x : FetchError)
        → dial ≡ none
        → fetch_node_progress e reply ≡ err x
        → Causes makers dial reply (init_failed x)
    no_cache :
        dial ≡ none
        → makers.new_lru (4 * 1024 * 1024) 4096 ≡ none
        → Causes makers dial reply cache_failed

module _ {e : Env} {laws : SemaphoreLaws e} (makers : Makers e)
    (ready : MakersLaws e laws makers) where
  fits :
      (c : Config) (size : ℕ)
      → validate e c ≡ none
      → 1 ≤ c.protocol.msgs_semaphore_limit.num
      → size ≤ e.max_msg_size
      → (s : e.Semaphore) × (e.try_acquire
            (makers.new_semaphore c.protocol.msgs_semaphore_limit)
            (message_weight size)
          ≡ some s)
  unfolding validate
  fits c size valid few small =
      ready.grants c.protocol.msgs_semaphore_limit (message_weight size) few (ground arith)

  handle_msg-fits :
      (now later code size : ℕ) (body : e.Body) (h : Handler e) (p : Peer e)
      → size ≤ e.max_msg_size
      → (s : e.Semaphore) → e.try_acquire h.msg_semaphore (message_weight size) ≡ some s
      → handle_msg now later (received code size body) h p
        ≡ released size (dispatch now later code body (record h { msg_semaphore = s }) p)
  unfolding handle_msg
  handle_msg-fits now later code size body h p small s granted =
      let fits : ltb e.max_msg_size size ≡ false = ground (arith, small) in
      rw fits (rw granted refl)

  new_state-Ready :
      (c : HandlerConfig e) (backend : BackendClient) (txs events : e.Lru) (p : PeerProgress)
      → validate e c.config ≡ none
      → 1 ≤ c.config.protocol.msgs_semaphore_limit.num
      → backend.progress ≡ some p
      → IsReported e p
      → Ready (new_state makers c backend txs events)
  unfolding new_state get_epoch
  new_state-Ready c backend txs events p valid few known reported = record {
    no_peers = refl;
    progress = p;
    known = known;
    reported = reported;
    tracked = rw known (ground arith);
    dispatches = λ now later code size body q small.
        let (s, granted) = fits c.config size valid few small in
        (
          s,
          handle_msg-fits now later code size body (new_state makers c backend txs events) q small s
              granted,
        );
  }

  pub new_handler-Ready :
      (c : HandlerConfig e) (dial : Option ℕ) (reply : Reply)
      → validate e c.config ≡ none
      → 1 ≤ c.config.protocol.msgs_semaphore_limit.num
      → ((h : Handler e) × (new_handler makers c dial reply ≡ made h) × Ready h)
        ⊎ ((x : CreationError) × (new_handler makers c dial reply ≡ no_handler x)
            × Causes makers dial reply x)
  unfolding new_handler init
  new_handler-Ready c (some x) reply valid few = inr (dial_failed x, refl, no_dial x refl)
  new_handler-Ready c none reply valid few =
      let started : (p : PeerProgress)
          → fetch_node_progress e reply ≡ ok p
          → init e reply (record { progress = none }) ≡ (record { progress = some p }, none) =
        λ p fetched. rw (fetched, init) refl in
      elim (fetch_cases e reply) [
        | inr (x, fails) ↦
            inr (init_failed x, rw (fails, new_handler) refl, no_progress x refl fails)
        | inl (p, fetched, good) ↦ elim (Option-cases (makers.new_lru (4 * 1024 * 1024) 4096)) [
          | inl none' ↦ inr (
            cache_failed,
            rw (started p fetched, new_handler) (rw none' refl),
            no_cache refl none',
          )
          | inr (cache, has) ↦
              let backend : BackendClient = record { progress = some p } in
              inl (
                new_state makers c backend cache cache,
                rw (started p fetched, new_handler)
                    (rw has (
                      rw has
                        (ap (λ r. made (new_state makers c r.0 cache cache)) (started p fetched)))),
                new_state-Ready c backend cache cache p valid few refl good,
              )
        ]
      ]
