-- ===== src/Peer/Traffic/Held.antt =====
-- What the semaphore of a peer's queue holds besides the items in the queue.
use sonicpeer.Base.{
  ℕ, ◌+◌, ◌≤◌, ◌<◌, ◌≡◌, refl, Bool, true, false, not, ◌&&◌, List, [], ◌∷◌, some, arith,
  if◌then◌else◌, ltb, length, length-append, Option-cases, inl, inr,
}
use sonicpeer.Env.{Env, SemaphoreLaws}
use sonicpeer.Peer.{Peer, BroadcastItem}
use sonicpeer.Peer.Outbox.{mem_size, enqueued, given_back, send_item, async_send_encoded_item}
use sonicpeer.Peer.Traffic.{queued_size, queued_size-append}

module _ {e : Env} (laws : SemaphoreLaws e) where
  -- What it holds besides the queue: n items of size z
  pub record Besides (n z : ℕ) (p : Peer e) : Type 0 where
    pub num : (laws.held p.queued_data).num ≡ length p.queue + n
    pub size : (laws.held p.queued_data).size ≡ queued_size p.queue + z
    pub room : length p.queue ≤ p.queue_cap

  pub acquired-Besides :
      {n z : ℕ} (item : BroadcastItem) (p : Peer e) (s : e.Semaphore)
      → Besides n z p
      → e.try_acquire p.queued_data (mem_size item.raw) ≡ some s
      → Besides (n + 1) (z + (length item.raw + 1024)) (record p { queued_data = s })
  unfolding mem_size
  acquired-Besides item p s b granted =
      let (n, z) = laws.held-try_acquire p.queued_data s (mem_size item.raw) granted in
      record { num = omega (arith, n, b.num); size = omega (arith, z, b.size); room = b.room }

  pub enqueued-Besides :
      {n z : ℕ} (item : BroadcastItem) (p : Peer e) (s : e.Semaphore)
      → Besides (n + 1) (z + (length item.raw + 1024)) (record p { queued_data = s })
      → length p.queue < p.queue_cap
      → Besides n z (enqueued p s item)
  enqueued-Besides item p s b l = record {
    num = omega (arith, b.num, length-append p.queue (item ∷ []));
    size = omega (arith, b.size, queued_size-append p.queue (item ∷ []));
    room = omega (arith, l, length-append p.queue (item ∷ []));
  }

  pub given_back-Besides :
      {n z : ℕ} (item : BroadcastItem) (p : Peer e) (s : e.Semaphore)
      → Besides (n + 1) (z + (length item.raw + 1024)) (record p { queued_data = s })
      → Besides n z (given_back p s item)
  unfolding mem_size
  given_back-Besides item p s b =
      let (n, z) =
        laws.held-release s (mem_size item.raw) (omega (arith, b.num)) (omega (arith, b.size)) in
      record { num = omega (arith, n, b.num); size = omega (arith, z, b.size); room = b.room }

  module _ {n z : ℕ} where
    offered-Besides :
        (item : BroadcastItem) (p : Peer e) (s : e.Semaphore) (test : Bool)
        → Besides (n + 1) (z + (length item.raw + 1024)) (record p { queued_data = s })
        → (test ≡ true → length p.queue < p.queue_cap)
        → Besides n z
            (if◌then◌else◌ {A = Peer e × Bool} test
              (enqueued p s item, true)
              (given_back p s item, false)).0
    offered-Besides item p s true b l = enqueued-Besides item p s b (l refl)
    offered-Besides item p s false b l = given_back-Besides item p s b

    pub send-Besides :
        (item : BroadcastItem) (p : Peer e) → Besides n z p → Besides n z (send_item item p).0
    unfolding send_item
    send-Besides item p b = elim (Option-cases (e.try_acquire p.queued_data (mem_size item.raw))) [
      | inl refused ↦ rw (refused, send_item) b
      | inr (s, granted) ↦
          rw (granted, send_item)
            (offered-Besides item p s (ltb (length p.queue) p.queue_cap)
              (acquired-Besides item p s b granted) (λ room. ground (arith, room)))
    ]

    pub async-Besides :
        (picks : Bool) (raw : List ℕ) (code : ℕ) (p : Peer e)
        → Besides n z p
        → Besides n z (async_send_encoded_item picks raw code p).0
    unfolding async_send_encoded_item
    async-Besides picks raw code p b =
        let item : BroadcastItem = record { code = code; raw = raw } in
        elim (Option-cases (e.try_acquire p.queued_data (mem_size raw))) [
          | inl refused ↦ rw (refused, async_send_encoded_item) b
          | inr (s, granted) ↦
              rw (granted, async_send_encoded_item)
                (offered-Besides item p s
                  (ltb (length p.queue) p.queue_cap && not (p.terminated && picks))
                  (acquired-Besides item p s b granted) (λ room. ground (arith, room)))
        ]
