-- ===== src/Sidecar.antt =====
-- sidecar/main.go: which of two kinds of nodes announces a transaction first. The mutex guards `record`
-- and the heartbeat, so each is one step. A time is the reading of the clock after the mutex is taken,
-- in nanoseconds. An `int32` is its two's complement, below 2 ^ 32. The metrics of prometheus count
-- what the counters of the state count.
pub mod Followed
pub mod Accounts
mod Tests
use sonicpeer.Base.{
  ℕ, ◌+◌, ◌-◌, ◌*◌, ◌%◌, ◌^◌, Bool, true, false, List, [], ◌∷◌, ◌++◌, Option, none, some,
  if◌then◌else◌, ltb, lookup, store, erase,
}

-- `arrival`
pub record Arrival : Type 0 where
  pub ts : ℕ
  pub is_sonic : Bool

-- What `record` reports: whether the sonic node was first, and by how much.
pub record Delta : Type 0 where
  pub sonic_first : Bool
  pub by : ℕ

-- The variables of the package. `deltas` is what has been observed, in order.
pub record Tracker : Type 0 where
  pub seen : List (ℕ × Arrival)
  pub deltas : List Delta
  pub sonic_orphans : ℕ
  pub standard_orphans : ℕ
  pub sentry_peers : ℕ
  pub standard_peers : ℕ

abbrev pub new_tracker : Tracker
new_tracker = record {
  seen = [];
  deltas = [];
  sonic_orphans = 0;
  standard_orphans = 0;
  sentry_peers = 0;
  standard_peers = 0;
}

-- `==` on bool
abbrev pub same_kind : Bool → Bool → Bool
same_kind true b = b
same_kind false true = false
same_kind false false = true

-- `record`
unfoldable pub record_arrival : ℕ → Bool → ℕ → Tracker → Tracker
record_arrival hash is_sonic now t = elim (lookup hash t.seen) [
  | some first ↦ if same_kind first.is_sonic is_sonic then t else record t {
    deltas = t.deltas ++ record { sonic_first = first.is_sonic; by = now - first.ts } ∷ [];
    seen = erase hash t.seen;
  }
  | none ↦ record t { seen = store hash (record { ts = now; is_sonic = is_sonic }) t.seen }
]

-- What the `select` of `subscribe` receives.
pub data Received : Type 0 where
  announced : ℕ → ℕ → Received
  subscription_error : Received
  context_done : Received

-- The loop of `subscribe`; the Bool says whether it has returned.
unfoldable pub subscribe : Bool → List Received → Tracker → Tracker × Bool
unfolding record_arrival
subscribe is_sonic [] t = (t, false)
subscribe is_sonic (announced hash now ∷ rest) t =
    subscribe is_sonic rest (record_arrival hash is_sonic now t)
subscribe is_sonic (subscription_error ∷ rest) t = (t, true)
subscribe is_sonic (context_done ∷ rest) t = (t, true)

-- `120*time.Second`
abbrev pub window : ℕ
window = 120 * 1000000000

abbrev pub is_stale : ℕ → Arrival → Bool
is_stale now a = ltb window (now - a.ts)

-- The counters, of 64 bits, for an entry that goes stale.
abbrev pub orphaned : ℕ → Arrival → Tracker → Tracker
orphaned hash a t =
    if a.is_sonic
    then record t { sonic_orphans = (t.sonic_orphans + 1) % 2 ^ 64; seen = erase hash t.seen }
    else record t { standard_orphans = (t.standard_orphans + 1) % 2 ^ 64; seen = erase hash t.seen }

-- The loop over the entries.
pub clean_up : ℕ → List (ℕ × Arrival) → Tracker → Tracker
clean_up now [] t = t
clean_up now ((hash, a) ∷ entries) t =
    clean_up now entries (if is_stale now a then orphaned hash a t else t)

-- `getPeerCount`, -1 if the call fails
abbrev pub get_peer_count : Option ℕ → ℕ
get_peer_count none = 2 ^ 32 - 1
get_peer_count (some count) = count % 2 ^ 32

-- The loop over the standard nodes that adds the counts that are not negative.
pub add_counts : List (Option ℕ) → ℕ → ℕ
add_counts [] total = total
add_counts (reply ∷ replies) total =
    add_counts replies (
      if ltb (get_peer_count reply) (2 ^ 31)
      then (total + get_peer_count reply) % 2 ^ 32
      else total)

-- A tick of the goroutine that cleans up
unfoldable pub heartbeat : ℕ → Option ℕ → List (Option ℕ) → Tracker → Tracker
unfolding clean_up add_counts
heartbeat now sentry standard t =
    let t' = clean_up now t.seen t in
    record t' { sentry_peers = get_peer_count sentry; standard_peers = add_counts standard 0 }

-- Any order of the goroutines
pub data Call : Type 0 where
  arrival : ℕ → Bool → ℕ → Call
  beat : ℕ → Option ℕ → List (Option ℕ) → Call

unfoldable pub step : Call → Tracker → Tracker
step (arrival hash is_sonic now) t = record_arrival hash is_sonic now t
step (beat now sentry standard) t = heartbeat now sentry standard t

unfoldable pub run : List Call → Tracker → Tracker
unfolding step
run [] t = t
run (c ∷ calls) t = run calls (step c t)
