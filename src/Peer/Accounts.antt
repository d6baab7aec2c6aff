-- ===== src/Peer/Accounts.antt =====
-- The semaphore of a peer's queue holds exactly what the items of its traffic weigh: those in the queue,
-- those whose calls wait for the queue, and the one that is being written.
use sonicpeer.Base.{
  ℕ, suc, ◌⊎◌, sym, ◌+◌, ◌≤◌, ◌≡◌, refl, Bool, true, false, List, [], ◌∷◌, none, some, ap, arith,
  if◌then◌else◌, ltb, length, Option-cases, Bool-cases, inl, inr, get_elem?,
}
use sonicpeer.Env.{Env, SemaphoreLaws}
use sonicpeer.Peer.{Peer, BroadcastItem}
use sonicpeer.Peer.Outbox.{
  mem_size, given_back, acquire_item, select_item, take_item, write_item, release_item,
}
use sonicpeer.Peer.Traffic.{
  queued_size, without, length-without, queued_size-without, Writer, selecting, returned, writing,
  written, in_hand, Traffic, Event, send, async, acquires, selects, takes, writes, releases, quits,
  quiet, acquired, selected, taken, takes_from, writes_from, releases_from, quits_from, step, run,
}
use sonicpeer.Peer.Traffic.Held.{
  Besides, acquired-Besides, enqueued-Besides, given_back-Besides, send-Besides, async-Besides,
}

module _ {e : Env} (laws : SemaphoreLaws e) where
  -- What the semaphore holds for a peer whose queue is all of its traffic
  pub record Accounted (p : Peer e) : Type 0 where
    pub items : (laws.held p.queued_data).num ≡ length p.queue
    pub sizes : (laws.held p.queued_data).size ≡ queued_size p.queue
    pub room : length p.queue ≤ p.queue_cap

  pub record Balanced (t : Traffic e) : Type 0 where
    pub num :
        (laws.held t.peer.queued_data).num
        ≡ length t.peer.queue + length t.blocked + length (in_hand t.writer)
    pub size :
        (laws.held t.peer.queued_data).size
        ≡ queued_size t.peer.queue + queued_size t.blocked + queued_size (in_hand t.writer)
    pub room : length t.peer.queue ≤ t.peer.queue_cap

  besides :
      {t : Traffic e}
      → Balanced t
      → Besides laws
          (length t.blocked + length (in_hand t.writer))
          (queued_size t.blocked + queued_size (in_hand t.writer))
          t.peer
  besides b = record { num = omega (arith, b.num); size = omega (arith, b.size); room = b.room }

  balanced :
      {p : Peer e} {n z : ℕ} (blocked : List BroadcastItem) (writer : Writer)
      → Besides laws n z p
      → length blocked + length (in_hand writer) ≡ n
      → queued_size blocked + queued_size (in_hand writer) ≡ z
      → Balanced (record { peer = p; blocked = blocked; writer = writer })
  balanced blocked writer b n z = record {
    num = omega (arith, b.num, n);
    size = omega (arith, b.size, z);
    room = b.room;
  }

  acquires-Balanced :
      (item : BroadcastItem) (t : Traffic e)
      → Balanced t
      → Balanced (acquired item t (acquire_item item.raw t.peer))
  unfolding acquire_item
  acquires-Balanced item t b =
      elim (Option-cases (e.try_acquire t.peer.queued_data (mem_size item.raw))) [
        | inl refused ↦ rw (refused, acquire_item) b
        | inr (s, granted) ↦
            rw (granted, acquire_item)
              (balanced (item ∷ t.blocked) t.writer
                (acquired-Besides laws item t.peer s (besides b) granted) (omega arith)
                (omega arith))
      ]

  module _ (i : ℕ) (item : BroadcastItem) (t : Traffic e) (at : get_elem? t.blocked i ≡ some item)
      (b : Balanced t) where
    abbrev others : ℕ
    others = length (without t.blocked i) + length (in_hand t.writer)

    abbrev others_size : ℕ
    others_size = queued_size (without t.blocked i) + queued_size (in_hand t.writer)

    held_for_others : Besides laws (others + 1) (others_size + (length item.raw + 1024)) t.peer
    held_for_others = record {
      num = omega (arith, b.num, length-without t.blocked i item at);
      size = omega (arith, b.size, queued_size-without t.blocked i item at);
      room = b.room;
    }

    joined : Balanced (selected i t (select_item true item t.peer))
    unfolding select_item
    joined = elim (Bool-cases (ltb (length t.peer.queue) t.peer.queue_cap)) [
      | inl room ↦
          rw (room, select_item)
            (balanced (without t.blocked i) t.writer
              (enqueued-Besides laws item t.peer t.peer.queued_data held_for_others
                (ground (arith, room)))
              refl refl)
      | inr full ↦ rw (full, select_item) b
    ]

    abandoned_if :
        (over : Bool)
        → Balanced (
            selected i t
              (if over then (given_back t.peer t.peer.queued_data item, true) else (t.peer, false)))
    abandoned_if true =
        balanced (without t.blocked i) t.writer
          (given_back-Besides laws item t.peer t.peer.queued_data held_for_others) refl refl
    abandoned_if false = b

    selects-Balanced : (joins : Bool) → Balanced (selected i t (select_item joins item t.peer))
    unfolding select_item
    selects-Balanced true = joined
    selects-Balanced false = abandoned_if t.peer.terminated

  take_item-cases :
      (p : Peer e) (queue : List BroadcastItem)
      → p.queue ≡ queue
      → (take_item p ≡ none)
        ⊎ ((item : BroadcastItem) × (rest : List BroadcastItem) × (p.queue ≡ item ∷ rest)
            × (take_item p ≡ some (item, record p { queue = rest })))
  unfolding take_item
  take_item-cases p [] at = inl (rw (at, take_item) refl)
  take_item-cases p (item ∷ rest) at = inr (item, rest, at, rw (at, take_item) refl)

  takes-Balanced :
      (t : Traffic e) → in_hand t.writer ≡ [] → Balanced t → Balanced (taken t (take_item t.peer))
  takes-Balanced t free b = elim (take_item-cases t.peer t.peer.queue refl) [
    | inl empty ↦ rw empty b
    | inr (item, rest, at, taken') ↦
        let l : length t.peer.queue ≡ suc (length rest) = ap length at in
        let z : queued_size t.peer.queue ≡ length item.raw + 1024 + queued_size rest =
          ap queued_size at in
        let no_item : length (in_hand t.writer) ≡ 0 = ap length free in
        let no_size : queued_size (in_hand t.writer) ≡ 0 = ap queued_size free in
        rw taken' (record {
          num = omega (arith, b.num, l, no_item);
          size = omega (arith, b.size, z, no_size);
          room = omega (arith, b.room, l);
        })
  ]

  quits-Balanced :
      (over : Bool) (t : Traffic e)
      → in_hand t.writer ≡ []
      → Balanced t
      → Balanced (if over then record t { writer = returned } else t)
  quits-Balanced false t free b = b
  quits-Balanced true t free b =
      balanced t.blocked returned (besides b) (ap (λ l. length t.blocked + length l) (sym free))
        (ap (λ l. queued_size t.blocked + queued_size l) (sym free))

  writes-Balanced :
      (item : BroadcastItem) (t : Traffic e)
      → in_hand t.writer ≡ item ∷ []
      → Balanced t
      → Balanced (writes_from (writing item) t)
  unfolding write_item
  writes-Balanced item t at b =
      let same : Besides laws (length t.blocked + length (in_hand t.writer))
          (queued_size t.blocked + queued_size (in_hand t.writer)) (write_item item t.peer) =
        let r = besides b in record { num = r.num; size = r.size; room = r.room } in
      balanced t.blocked (written item) same (ap (λ l. length t.blocked + length l) (sym at))
        (ap (λ l. queued_size t.blocked + queued_size l) (sym at))

  releases-Balanced :
      (item : BroadcastItem) (t : Traffic e)
      → in_hand t.writer ≡ item ∷ []
      → Balanced t
      → Balanced (releases_from (written item) t)
  unfolding release_item
  releases-Balanced item t at b =
      let one : length (in_hand t.writer) ≡ 1 = ap length at in
      let weight : queued_size (in_hand t.writer) ≡ length item.raw + 1024 =
        omega (arith, ap queued_size at) in
      balanced t.blocked selecting
        (given_back-Besides laws {n = length t.blocked} {z = queued_size t.blocked} item t.peer
          t.peer.queued_data
          (record {
            num = omega (arith, b.num, one);
            size = omega (arith, b.size, weight);
            room = b.room;
          }))
        (omega arith) (omega arith)

  -- A step of the loop leaves the balance as it is, wherever the loop stands.
  loop-Balanced :
      (w : Writer) (t : Traffic e)
      → t.writer ≡ w
      → Balanced t
      → Balanced (takes_from w t)
        × Balanced (writes_from w t)
        × Balanced (releases_from w t)
        × Balanced (quits_from w t)
  unfolding write_item
  loop-Balanced selecting t at b = (
    takes-Balanced t (ap in_hand at) b,
    b,
    b,
    quits-Balanced t.peer.terminated t (ap in_hand at) b,
  )
  loop-Balanced returned t at b = (b, b, b, b)
  loop-Balanced (writing item) t at b = (b, writes-Balanced item t (ap in_hand at) b, b, b)
  loop-Balanced (written item) t at b = (b, b, releases-Balanced item t (ap in_hand at) b, b)

  step-Balanced : (x : Event) (t : Traffic e) → Balanced t → Balanced (step x t)
  unfolding step
  step-Balanced (send item) t b =
      balanced t.blocked t.writer (send-Besides laws item t.peer (besides b)) refl refl
  step-Balanced (async picks raw code) t b =
      balanced t.blocked t.writer (async-Besides laws picks raw code t.peer (besides b)) refl refl
  step-Balanced (acquires item) t b = acquires-Balanced item t b
  step-Balanced (selects joins i) t b = elim (Option-cases (get_elem? t.blocked i)) [
    | inl gone ↦ rw (gone, step) b
    | inr (item, at) ↦ rw (at, step) (selects-Balanced i item t at b joins)
  ]
  step-Balanced takes t b = (loop-Balanced t.writer t refl b).0
  step-Balanced writes t b = (loop-Balanced t.writer t refl b).1
  step-Balanced releases t b = (loop-Balanced t.writer t refl b).2
  step-Balanced quits t b = (loop-Balanced t.writer t refl b).3

  run-Balanced : (xs : List Event) (t : Traffic e) → Balanced t → Balanced (run xs t)
  unfolding run
  run-Balanced [] t b = b
  run-Balanced (x ∷ xs) t b = run-Balanced xs (step x t) (step-Balanced x t b)

  -- For a peer whose queue is accounted for, as that of a new peer is, in any order of the sends, of the
  -- two halves of `enqueueSendEncodedItem` and of the steps of the broadcast loop: the semaphore holds
  -- one item and its size for each item in the queue, for each call that waits with its item for the
  -- queue, and for the item that the loop has taken and not yet released, no more and no less; and the
  -- queue keeps within the channel.
  pub run-Accounted : (xs : List Event) (p : Peer e) → Accounted p → Balanced (run xs (quiet p))
  run-Accounted xs p a =
      run-Balanced xs (quiet p)
        (record { num = omega (arith, a.items); size = omega (arith, a.sizes); room = a.room })
