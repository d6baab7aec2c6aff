-- ===== src/Peer/Traffic.antt =====
-- pkg/gossip/peer.go: the traffic of a peer, which is the calls that send to its queue, those that wait in
-- the `select` of enqueueSendEncodedItem, and the loop `broadcast`. Their steps interleave in any order.
pub mod Held
use sonicpeer.Base.{
  ℕ, zero, suc, ◌+◌, ◌≡◌, refl, Bool, true, false, List, [], ◌∷◌, ◌++◌, Option, none, some, ap,
  arith, if◌then◌else◌, length, get_elem?,
}
use sonicpeer.Env.{Env}
use sonicpeer.Peer.{Peer, BroadcastItem}
use sonicpeer.Peer.Outbox.{
  enqueue_send_encoded_item, send_item, async_send_encoded_item, acquire_item, select_item,
  take_item, write_item, release_item,
}

abbrev pub queued_size : List BroadcastItem → ℕ
queued_size [] = 0
queued_size (item ∷ items) = length item.raw + 1024 + queued_size items

pub queued_size-append :
    (xs ys : List BroadcastItem) → queued_size (xs ++ ys) ≡ queued_size xs + queued_size ys
queued_size-append [] ys = omega arith
queued_size-append (x ∷ xs) ys = omega (arith, queued_size-append xs ys)

abbrev pub without : List BroadcastItem → ℕ → List BroadcastItem
without [] i = []
without (x ∷ xs) zero = xs
without (x ∷ xs) (suc i) = x ∷ without xs i

pub length-without :
    (xs : List BroadcastItem) (i : ℕ) (x : BroadcastItem)
    → get_elem? xs i ≡ some x
    → length (without xs i) + 1 ≡ length xs
length-without [] i x h = absurd (ground (arith, h))
length-without (y ∷ xs) zero x h = omega arith
length-without (y ∷ xs) (suc i) x h = let less = length-without xs i x h in omega (arith, less)

pub queued_size-without :
    (xs : List BroadcastItem) (i : ℕ) (x : BroadcastItem)
    → get_elem? xs i ≡ some x
    → queued_size (without xs i) + (length x.raw + 1024) ≡ queued_size xs
queued_size-without [] i x h = absurd (ground (arith, h))
queued_size-without (y ∷ xs) zero x h =
    let same : y ≡ x = ground (arith, h) in
    let weight : length y.raw ≡ length x.raw = ap (λ z. length z.raw) same in omega (arith, weight)
queued_size-without (y ∷ xs) (suc i) x h =
    let less = queued_size-without xs i x h in omega (arith, less)

-- Where the loop `broadcast` stands: before its `select`, before and after `p2p.Send`, and returned.
pub data Writer : Type 0 where
  selecting returned : Writer
  writing written : BroadcastItem → Writer

-- The item that the loop has taken from the queue
abbrev pub in_hand : Writer → List BroadcastItem
in_hand (writing item) = item ∷ []
in_hand (written item) = item ∷ []
in_hand _ = []

-- A peer, the items whose calls wait in the `select` of `enqueueSendEncodedItem`, and the loop.
pub record Traffic (e : Env) : Type 0 where
  pub peer : Peer e
  pub blocked : List BroadcastItem
  pub writer : Writer

-- The steps of the calls and of the loop: `acquires` is the first half of `enqueueSendEncodedItem` and
-- `selects` the end of one that waits.
pub data Event : Type 0 where
  send : BroadcastItem → Event
  async : Bool → List ℕ → ℕ → Event
  acquires : BroadcastItem → Event
  selects : Bool → ℕ → Event
  takes writes releases quits : Event

module _ {e : Env} where
  -- No call waits, and the loop has nothing in its hands.
  abbrev pub quiet : Peer e → Traffic e
  quiet p = record { peer = p; blocked = []; writer = selecting }

  abbrev pub acquired : BroadcastItem → Traffic e → Option (Peer e) → Traffic e
  acquired item t none = t
  acquired item t (some p) = record t { peer = p; blocked = item ∷ t.blocked }

  abbrev pub selected : ℕ → Traffic e → Peer e × Bool → Traffic e
  selected i t (p, true) = record t { peer = p; blocked = without t.blocked i }
  selected i t (p, false) = record t { peer = p }

  abbrev pub select_at : Bool → ℕ → Traffic e → Option BroadcastItem → Traffic e
  select_at joins i t none = t
  select_at joins i t (some item) = selected i t (select_item joins item t.peer)

  abbrev pub taken : Traffic e → Option (BroadcastItem × Peer e) → Traffic e
  taken t none = t
  taken t (some (item, p)) = record t { peer = p; writer = writing item }

  abbrev pub takes_from : Writer → Traffic e → Traffic e
  takes_from selecting t = taken t (take_item t.peer)
  takes_from _ t = t

  abbrev pub writes_from : Writer → Traffic e → Traffic e
  writes_from (writing item) t = record t { peer = write_item item t.peer; writer = written item }
  writes_from _ t = t

  abbrev pub releases_from : Writer → Traffic e → Traffic e
  releases_from (written item) t = record t { peer = release_item item t.peer; writer = selecting }
  releases_from _ t = t

  abbrev pub quits_from : Writer → Traffic e → Traffic e
  quits_from selecting t = if t.peer.terminated then record t { writer = returned } else t
  quits_from _ t = t

  unfoldable pub step : Event → Traffic e → Traffic e
  step (send item) t = record t { peer = (send_item item t.peer).0 }
  step (async picks raw code) t = record t {
    peer = (async_send_encoded_item picks raw code t.peer).0;
  }
  step (acquires item) t = acquired item t (acquire_item item.raw t.peer)
  step (selects joins i) t = select_at joins i t (get_elem? t.blocked i)
  step takes t = takes_from t.writer t
  step writes t = writes_from t.writer t
  step releases t = releases_from t.writer t
  step quits t = quits_from t.writer t

  unfoldable pub run : List Event → Traffic e → Traffic e
  run [] t = t
  run (x ∷ xs) t = run xs (step x t)

  -- A call that does not have to wait is its two halves, one after the other.
  enqueue-steps :
      (joins : Bool) (raw : List ℕ) (code : ℕ) (p : Peer e)
      → (run (acquires (record { code = code; raw = raw }) ∷ selects joins 0 ∷ []) (quiet p)).peer
        ≡ (enqueue_send_encoded_item joins (λ q. q) raw code p).0
  unfolding run step enqueue_send_encoded_item
  enqueue-steps joins raw code p = halves (acquire_item raw p)
    where
      item : BroadcastItem
      item = record { code = code; raw = raw }

      ended : (t : Traffic e) (r : Peer e × Bool) → (selected 0 t r).peer ≡ r.0
      ended t (p', true) = refl
      ended t (p', false) = refl

      halves :
          (o : Option (Peer e))
          → (step (selects joins 0) (acquired item (quiet p) o)).peer
            ≡ (elim o as (λ _. Peer e × Bool) [
              | none ↦ (p, true)
              | some p' ↦ select_item joins item p'
            ]).0
      halves none = refl
      halves (some p') = ended (acquired item (quiet p) (some p')) (select_item joins item p')
