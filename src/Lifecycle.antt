-- ===== src/Lifecycle.antt =====
-- The life of the node's protocol: Start and Stop of pkg/gossip/handler.go with the loops that Start
-- spawns and Stop waits for, and the Run callback of pkg/gossip/service.go, which the p2p server calls
-- for each connection. Every access to a channel, a wait group or the set of peers is a step; the
-- steps of Start, Stop, the loops and the sessions interleave in any order.
pub mod Counting
pub mod Counted
pub mod Stopped
pub mod Stops
mod Tests
use sonicpeer.Base.{
  map, ℕ, ◌+◌, ◌-◌, ◌<◌, ◌≡◌, Bool, true, false, List, [], ◌∷◌, ◌++◌, some, if◌then◌else◌, ◌==◌,
  get_elem?, set,
}

-- A loop that `Start` has spawned, or has been spawned and returned. `subscribing` is NodeProgressLoop
-- before its subscription, and `lost` the same after a subscription that failed: it has returned
-- above its `defer wg.Done()`.
pub data Loop : Type 0 where
  subscribing running ended lost : Loop

-- Where `Run` stands for one connection: before its tests; past the test of `quitSync`; inside
-- `handle`, counted by `wg`; past the handshake; registered in the set of peers and handling messages;
-- the same with a connection that is closed, or a message that is wrong; returned.
pub data Session : Type 0 where
  arriving admitted handling shaken registered dropped finished : Session

-- What `Disconnect` does to the peers in the set
abbrev pub cut_off : Session → Session
cut_off registered = dropped
cut_off x = x

-- Where `Start` and `Stop` stand. `starting n`: n loops are spawned; `stopping n`: n stop channels are
-- closed; then past `loopsWg.Wait()`, past `close(quitSync)`, past `peers.Close()`, and returned.
pub data Phase : Type 0 where
  starting : ℕ → Phase
  up : Phase
  stopping : ℕ → Phase
  waited quitting disconnected stopped : Phase

pub record Node : Type 0 where
  pub phase : Phase
  pub loops : List Loop
  pub loops_wg : ℕ
  pub started : Bool
  pub quit_sync : Bool
  pub peers_closed : Bool
  pub sessions : List Session
  pub wg : ℕ

-- `newHandler`
abbrev pub new_node : Node
new_node = record {
  phase = starting 0;
  loops = [];
  loops_wg = 0;
  started = false;
  quit_sync = false;
  peers_closed = false;
  sessions = [];
  wg = 0;
}

-- The loops in the order in which they are spawned; the third is NodeProgressLoop.
abbrev pub spawned : ℕ → Loop
spawned n = if n == 2 then subscribing else running

-- The number of stop channels that are closed.
abbrev pub closed_stops : Phase → ℕ
closed_stops (starting n) = 0
closed_stops up = 0
closed_stops (stopping n) = n
closed_stops waited = 4
closed_stops quitting = 4
closed_stops disconnected = 4
closed_stops stopped = 4

abbrev pub goes : Node → ℕ → Session → Node
goes s i x = record s { sessions = set s.sessions i x }

pub data Step (s : Node) : Node → Type 0 where
  -- `Start`
  spawns :
      (n : ℕ)
      → s.phase ≡ starting n
      → n < 4
      → Step s (record s {
        phase = starting (n + 1);
        loops = s.loops ++ spawned n ∷ [];
        loops_wg = s.loops_wg + 1;
      })
  starts : s.phase ≡ starting 4 → Step s (record s { phase = up; started = true })
  -- the loops
  subscribes :
      (i : ℕ)
      → get_elem? s.loops i ≡ some subscribing
      → Step s (record s { loops = set s.loops i running })
  fails :
      (i : ℕ)
      → get_elem? s.loops i ≡ some subscribing
      → Step s (record s { loops = set s.loops i lost })
  ends :
      (i : ℕ)
      → get_elem? s.loops i ≡ some running
      → i < closed_stops s.phase
      → Step s (record s { loops = set s.loops i ended; loops_wg = s.loops_wg - 1 })
  -- `Run`
  arrives : Step s (record s { sessions = s.sessions ++ arriving ∷ [] })
  refuses :
      (i : ℕ)
      → get_elem? s.sessions i ≡ some arriving
      → s.started ≡ true
      → s.quit_sync ≡ true
      → Step s (goes s i finished)
  admits :
      (i : ℕ)
      → get_elem? s.sessions i ≡ some arriving
      → s.started ≡ true
      → s.quit_sync ≡ false
      → Step s (goes s i admitted)
  counts :
      (i : ℕ)
      → get_elem? s.sessions i ≡ some admitted
      → Step s (record (goes s i handling) { wg = s.wg + 1 })
  -- the test of useless peers, or a handshake that fails, at the latest by its timeout
  gives_up :
      (i : ℕ)
      → get_elem? s.sessions i ≡ some handling
      → Step s (record (goes s i finished) { wg = s.wg - 1 })
  -- the peer answers the handshake
  shakes : (i : ℕ) → get_elem? s.sessions i ≡ some handling → Step s (goes s i shaken)
  -- too many peers, or the peer is registered already; neither numbers nor names are modelled here
  rejects :
      (i : ℕ)
      → get_elem? s.sessions i ≡ some shaken
      → Step s (record (goes s i finished) { wg = s.wg - 1 })
  registers :
      (i : ℕ)
      → get_elem? s.sessions i ≡ some shaken
      → s.peers_closed ≡ false
      → Step s (goes s i registered)
  -- `errPeerSetClosed` of RegisterPeer
  too_late :
      (i : ℕ)
      → get_elem? s.sessions i ≡ some shaken
      → s.peers_closed ≡ true
      → Step s (record (goes s i finished) { wg = s.wg - 1 })
  -- the remote side closes the connection, or sends a wrong message
  drops : (i : ℕ) → get_elem? s.sessions i ≡ some registered → Step s (goes s i dropped)
  -- `handleMsg` returns the error, and the peer is unregistered
  returns :
      (i : ℕ)
      → get_elem? s.sessions i ≡ some dropped
      → Step s (record (goes s i finished) { wg = s.wg - 1 })
  -- `Stop`
  stops : s.phase ≡ up → Step s (record s { phase = stopping 0 })
  closes_stop :
      (n : ℕ) → s.phase ≡ stopping n → n < 4 → Step s (record s { phase = stopping (n + 1) })
  waits_loops : s.phase ≡ stopping 4 → s.loops_wg ≡ 0 → Step s (record s { phase = waited })
  quits : s.phase ≡ waited → Step s (record s { phase = quitting; quit_sync = true })
  closes_peers :
      s.phase ≡ quitting
      → Step s (record s {
        phase = disconnected;
        peers_closed = true;
        sessions = map cut_off s.sessions;
      })
  waits_sessions : s.phase ≡ disconnected → s.wg ≡ 0 → Step s (record s { phase = stopped })

-- The states that follow a state.
pub data Reach (s : Node) : Node → Type 0 where
  here : Reach s s
  next : {t u : Node} → Reach s t → Step t u → Reach s u
