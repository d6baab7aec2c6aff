-- ===== src/Service/Creation/Notified.antt =====
-- From a service that NewService has just made to its first subscriber.
use sonicpeer.Base.{
  ◌>>=◌, ℕ, ◌*◌, ◌≤◌, ◌≡◌, refl, ◌⊎◌, inl, inr, true, false, List, [], ◌++◌, Option, none, some,
  length, map, member, Option-cases,
}
use sonicpeer.Backend.{Reply, init}
use sonicpeer.Env.{Env, Makers, LruLaws}
use sonicpeer.Handler.{Handler}
use sonicpeer.Handler.Creation.{
  HandlerConfig, CreationError, made, no_handler, new_state, new_handler, init_failed, cache_failed,
}
use sonicpeer.Handler.Gossip.{handle_txs}
use sonicpeer.Handler.Gossip.Relayed.{offered}
use sonicpeer.Known.Fifo.{IsValid}
use sonicpeer.Peer.{Peer}
use sonicpeer.Service.{capacity, hooked, run}
use sonicpeer.Service.Creation.{
  Service, ServiceConfig, ServiceError, dns_failed, handler_failed, started, no_service,
  handler_config, new_service, subscribe,
}
use sonicpeer.Service.Delivered.{idle, deliver, handle_txs-notified}

module _ {e : Env} (makers : Makers e) where
  new_handler-hook :
      (c : HandlerConfig e) (dial : Option ℕ) (reply : Reply)
      → ((h : Handler e) × (new_handler makers c dial reply ≡ made h)
          × (h.has_new_txs_hook ≡ c.has_new_txs_hook))
        ⊎ ((x : CreationError) × (new_handler makers c dial reply ≡ no_handler x))
  unfolding new_handler new_state
  new_handler-hook c (some x) reply = inr (_, refl)
  new_handler-hook c none reply =
      let fetched = init e reply (record { progress = none }) in
      elim (Option-cases fetched.1) [
        | inr (x, bad) ↦ inr (init_failed x, rw (bad, new_handler) refl)
        | inl good ↦ elim (Option-cases (makers.new_lru (4 * 1024 * 1024) 4096)) [
          | inl full ↦ inr (cache_failed, rw (good, new_handler) (rw full refl))
          | inr (lru, has) ↦ inl (
            new_state makers c fetched.0 lru lru,
            rw (good, new_handler) (rw has (rw has refl)),
            refl,
          )
        ]
      ]

  -- newService fails for the DNS names, or else because newHandler does.
  pub data Fails (c : ServiceConfig e) (dns dial : Option ℕ) (reply : Reply)
      : ServiceError → Type 0 where
    no_names : (x : ℕ) → dns ≡ some x → Fails c dns dial reply (dns_failed x)
    no_handler_made :
        (x : CreationError)
        → dns ≡ none
        → new_handler makers (handler_config c) dial reply ≡ no_handler x
        → Fails c dns dial reply (handler_failed x)

  module _ {V : Type 0} (shown : e.Tx → V) where
    -- newService fails, for the DNS names or because newHandler does, or it makes a service that loses no
    -- transaction on its way: to somebody who subscribes at once over a connection with
    -- notifications, for a message of no more transactions than the channel holds, from a peer with
    -- valid marks. `handleTxs` returns, and once the goroutines of the service and of the
    -- subscription have taken their turns, the subscriber has been notified of exactly the
    -- transactions that the handler gave to the hook, in order. If the caches of the handler keep
    -- their laws, the hash of each transaction that pays the minimal gas price and has a sender, and
    -- that the cache lacked at the start, is among theirs.
    pub new_service-notifies :
        (laws : LruLaws e) (c : ServiceConfig e) (dns dial : Option ℕ) (reply : Reply)
        (txs : List e.Tx) (p : Peer e)
        → IsValid p.known_txs
        → length txs ≤ capacity
        → ((err : ServiceError) × (new_service makers c dns dial reply ≡ no_service err)
            × Fails c dns dial reply err)
          ⊎ ((s : Service e) × (h : Handler e) × (p' : Peer e) × (news : List e.Tx) × (new_service
                  makers c dns dial reply
                ≡ started s)
              × (handle_txs txs s.handler p ≡ some (h, p', news))
              × ((do f ← subscribe true s; run shown (map hooked news ++ deliver (length news)) f)
                  ≡ some (idle [] (map shown news)))
              × ((x : ℕ)
                  → member x (offered s.handler txs) ≡ true
                  → e.lru_contains s.handler.tx_hash_cache x ≡ false
                  → member x (map e.tx_hash news) ≡ true))
    unfolding new_service
    new_service-notifies laws c (some x) dial reply txs p valid few =
        inl (dns_failed x, refl, no_names x refl)
    new_service-notifies laws c none dial reply txs p valid few =
        elim (new_handler-hook (handler_config c) dial reply) [
          | inr (x, fails) ↦
              inl (handler_failed x, rw (fails, new_service) refl, no_handler_made x refl fails)
          | inl (h, makes, hook) ↦
              let (h', p', news, runs, notified, complete) =
                handle_txs-notified shown h laws txs p [] valid hook few in
              inr (
                record { handler = h; tx_ch = [] },
                h',
                p',
                news,
                rw (makes, new_service) refl,
                runs,
                notified,
                complete,
              )
        ]
