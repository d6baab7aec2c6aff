-- ===== src/Peer/Fresh.antt =====
-- A peer that newPeer makes from the default configuration.
use sonicpeer.Base.{
  ℕ, ◌+◌, ◌*◌, ◌/◌, ◌^◌, ◌≤◌, ◌<◌, ◌≡◌, refl, Bool, true, List, arith, ltb, length,
}
use sonicpeer.Config.{Scale, default_peer_cache_config}
use sonicpeer.Env.{Env, Makers, SemaphoreLaws, MakersLaws}
use sonicpeer.Known.Fifo.{IsValid, new-IsValid}
use sonicpeer.Peer.{Peer, PeerCacheConfig, BroadcastItem, new_peer}
use sonicpeer.Peer.Accounts.{Accounted}
use sonicpeer.Peer.Outbox.{mem_size, send_item}

module _ {e : Env} where
  -- newPeer with the semaphore that it makes
  abbrev pub fresh_peer :
      Makers e → PeerCacheConfig → ℕ → ℕ → Bool → Bool → List ℕ → e.Conn → Peer e
  fresh_peer makers cfg version node_id trusted inbound caps conn =
      new_peer version node_id trusted inbound caps conn
        (makers.new_semaphore (record { num = cfg.max_queued_items; size = cfg.max_queued_size }))
        cfg

-- What the size limit of the queue is, without the additions that wrap around.
abbrev pub queue_room : (e : Env) → Scale → ℕ
queue_room e scale = e.max_msg_size * 3 / 4 + scale.u64 (e.max_msg_size / 4)

module _ {e : Env} {laws : SemaphoreLaws e} (makers : Makers e)
    (ready : MakersLaws e laws makers) where
  send_item-fresh :
      (cfg : PeerCacheConfig) (version node_id : ℕ) (trusted inbound : Bool) (caps : List ℕ)
      (conn : e.Conn) (item : BroadcastItem)
      → 1 ≤ cfg.max_queued_items
      → length item.raw + 1024 ≤ cfg.max_queued_size
      → (send_item item (fresh_peer makers cfg version node_id trusted inbound caps conn)).1 ≡ true
  unfolding send_item mem_size new_peer
  send_item-fresh cfg version node_id trusted inbound caps conn item some' fits =
      let (s, granted) =
        ready.grants (record { num = cfg.max_queued_items; size = cfg.max_queued_size })
          (mem_size item.raw) some' fits in
      let room : ltb 0 cfg.max_queued_items ≡ true = ground arith in
      rw (granted, send_item) (rw room refl)

  -- A new peer of the default configuration, whatever the scale: its caches have room for a hash, so that to
  -- mark one does not panic; what its semaphore holds is what its queue holds; and it queues a first
  -- message of up to three quarters of the size limit and what the scale makes of the other quarter,
  -- if the number of items does not overflow 32 bits, nor their size 64.
  pub new_peer-Accounted :
      (scale : Scale) (version node_id : ℕ) (trusted inbound : Bool) (caps : List ℕ) (conn : e.Conn)
      → queue_room e scale + 1024 < 2 ^ 64
      → 3072 + scale.events 1024 < 2 ^ 32
      → (p : Peer e)
      → p
        ≡ fresh_peer makers
            (default_peer_cache_config e scale)
            version
            node_id
            trusted
            inbound
            caps
            conn
      → IsValid p.known_txs
        × IsValid p.known_events
        × Accounted laws p
        × ((item : BroadcastItem)
            → length item.raw ≤ queue_room e scale
            → (send_item item p).1 ≡ true)
  unfolding new_peer default_peer_cache_config
  new_peer-Accounted scale version node_id trusted inbound caps conn small few p same =
      let cfg = default_peer_cache_config e scale in
      let valid = (new-IsValid (24576 * 3 / 4 + scale.i (24576 / 4)) (omega arith)).0 in
      let held =
        ready.held-new_semaphore
          (record { num = cfg.max_queued_items; size = cfg.max_queued_size }) in
      let size : cfg.max_queued_size ≡ queue_room e scale + 1024 = omega (arith, small) in
      let num : cfg.max_queued_items ≡ 3072 + scale.events 1024 = omega (arith, few) in
      rw same (
        valid,
        valid,
        record { items = held.0; sizes = held.1; room = omega arith },
        λ item fits.
            send_item-fresh cfg version node_id trusted inbound caps conn item (omega (arith, num))
              (omega (arith, size, fits)),
      )
