-- ===== src/Lifecycle/Counted.antt =====
-- What the wait groups count, in every reachable state.
use sonicpeer.Base.{
  ℕ, ◌+◌, ◌-◌, ◌≤◌, ◌≡◌, ◌≢◌, refl, sym, ap, ◌∙◌, Bool, true, false, List, [], ◌∷◌, ◌++◌, some,
  arith, get_elem?, set, length, length-append, length-set,
}
use sonicpeer.Lifecycle.{
  Loop, subscribing, running, ended, lost, Session, arriving, admitted, handling, shaken,
  registered, dropped, finished, Phase, starting, up, stopping, waited, quitting, disconnected,
  stopped, Node, new_node, spawned, closed_stops, goes, Step, Reach, here, next,
}
use sonicpeer.Lifecycle.Counting.{
  connected, inside-cut_off, connected-cut_off, total, total-append, total-set, pending, inside,
  in_set, spawned_at, over_loops, shut, is_stopped,
}

pub record Counted (s : Node) : Type 0 where
  pub loops_counted : total pending s.loops ≡ s.loops_wg
  pub sessions_counted : total inside s.sessions ≡ s.wg
  pub all_spawned : length s.loops ≡ spawned_at s.phase
  pub loops_over : over_loops s.phase ≡ true → s.loops_wg ≡ 0
  pub closed : s.peers_closed ≡ shut s.phase
  pub stop_bound : closed_stops s.phase ≤ 4
  pub cut : shut s.phase ≡ true → total connected s.sessions ≡ 0
  pub left : is_stopped s.phase ≡ true → total in_set s.sessions ≡ 0

pub new_node-Counted : Counted new_node
new_node-Counted = record {
  loops_counted = refl;
  sessions_counted = refl;
  all_spawned = refl;
  loops_over = λ h. refl;
  closed = refl;
  stop_bound = omega arith;
  cut = λ h. refl;
  left = λ h. refl;
}

in_set-le-inside : (xs : List Session) → total in_set xs ≤ total inside xs
in_set-le-inside [] = omega arith
in_set-le-inside (x ∷ xs) = omega (arith, in_set-le-inside xs, one x)
  where
    one : (x : Session) → in_set x ≤ inside x
    one arriving = omega arith
    one admitted = omega arith
    one handling = omega arith
    one shaken = omega arith
    one dropped = omega arith
    one registered = omega arith
    one finished = omega arith

pending-spawned : (n : ℕ) → pending (spawned n) ≡ 1
pending-spawned n = ground arith

still_open : (f : Phase) → shut f ≡ false → is_stopped f ≢ true
still_open (starting n) h k = ground arith
still_open up h k = ground arith
still_open (stopping n) h k = ground arith
still_open waited h k = ground arith
still_open quitting h k = ground arith
still_open disconnected h k = ground arith
still_open stopped h k = ground arith

-- A step of a loop, of a session, and of Start and Stop.
loop-Counted :
    {s : Node} (c : Counted s) (loops : List Loop) (n : ℕ)
    → total pending loops ≡ n
    → length loops ≡ length s.loops
    → n ≤ s.loops_wg
    → Counted (record s { loops = loops; loops_wg = n })
loop-Counted c loops n sum same less = record {
  loops_counted = sum;
  sessions_counted = c.sessions_counted;
  all_spawned = same ∙ c.all_spawned;
  loops_over = λ h. omega (arith, c.loops_over h, less);
  closed = c.closed;
  stop_bound = c.stop_bound;
  cut = c.cut;
  left = c.left;
}

session-Counted :
    {s : Node} (c : Counted s) (sessions : List Session) (n : ℕ)
    → total inside sessions ≡ n
    → (shut s.phase ≡ true → total connected sessions ≡ 0)
    → (is_stopped s.phase ≡ true → total in_set sessions ≡ 0)
    → Counted (record s { sessions = sessions; wg = n })
session-Counted c sessions n sum cut gone = record {
  loops_counted = c.loops_counted;
  sessions_counted = sum;
  all_spawned = c.all_spawned;
  loops_over = c.loops_over;
  closed = c.closed;
  stop_bound = c.stop_bound;
  cut = cut;
  left = gone;
}

phase-Counted :
    {s : Node} (c : Counted s) (phase : Phase) (started quit_sync peers_closed : Bool)
    → spawned_at phase ≡ spawned_at s.phase
    → closed_stops phase ≤ 4
    → (over_loops phase ≡ true → s.loops_wg ≡ 0)
    → peers_closed ≡ shut phase
    → (shut phase ≡ true → total connected s.sessions ≡ 0)
    → (is_stopped phase ≡ true → total in_set s.sessions ≡ 0)
    → Counted (record s {
      phase = phase;
      started = started;
      quit_sync = quit_sync;
      peers_closed = peers_closed;
    })
phase-Counted c phase started quit_sync peers_closed same bound over closed' cut gone = record {
  loops_counted = c.loops_counted;
  sessions_counted = c.sessions_counted;
  all_spawned = c.all_spawned ∙ sym same;
  loops_over = over;
  closed = closed';
  stop_bound = bound;
  cut = cut;
  left = gone;
}

-- A session moves on.
goes-Counted :
    {s : Node} (c : Counted s) (i : ℕ) (x y : Session) (n : ℕ)
    → get_elem? s.sessions i ≡ some x
    → n + inside x ≡ s.wg + inside y
    → (shut s.phase ≡ true → connected y ≤ connected x)
    → (is_stopped s.phase ≡ true → in_set y ≤ in_set x)
    → Counted (record (goes s i y) { wg = n })
goes-Counted {s} c i x y n at sum less fewer =
    session-Counted c (set s.sessions i y) n
      (omega (arith, total-set inside s.sessions i x y at, c.sessions_counted))
      (λ h. omega (arith, total-set connected s.sessions i x y at, c.cut h, less h))
      (λ h. omega (arith, total-set in_set s.sessions i x y at, c.left h, fewer h))

-- A loop moves on.
loops-Counted :
    {s : Node} (c : Counted s) (i : ℕ) (x y : Loop) (n : ℕ)
    → get_elem? s.loops i ≡ some x
    → n + pending x ≡ s.loops_wg + pending y
    → n ≤ s.loops_wg
    → Counted (record s { loops = set s.loops i y; loops_wg = n })
loops-Counted {s} c i x y n at sum less =
    loop-Counted c (set s.loops i y) n
      (omega (arith, total-set pending s.loops i x y at, c.loops_counted)) (length-set s.loops i y)
      less

-- Every step keeps the counts.
pub Step-Counted : {s t : Node} → Step s t → Counted s → Counted t
Step-Counted {s} (Step.spawns n at lt) c = record {
  loops_counted =
      omega
        (arith, total-append pending s.loops (spawned n ∷ []), pending-spawned n, c.loops_counted);
  sessions_counted = c.sessions_counted;
  all_spawned =
      omega (arith, length-append s.loops (spawned n ∷ []), c.all_spawned, ap spawned_at at);
  loops_over = λ h. absurd (ground arith);
  closed = c.closed ∙ ap shut at;
  stop_bound = omega arith;
  cut = λ h. absurd (ground arith);
  left = λ h. absurd (ground arith);
}
Step-Counted {s} (Step.starts at) c =
    phase-Counted c up true s.quit_sync s.peers_closed (sym (ap spawned_at at)) (omega arith)
      (λ h. absurd (ground arith)) (c.closed ∙ ap shut at) (λ h. absurd (ground arith))
      (λ h. absurd (ground arith))
Step-Counted {s} (Step.subscribes i at) c =
    loops-Counted c i subscribing running s.loops_wg at refl (omega arith)
Step-Counted {s} (Step.fails i at) c =
    loops-Counted c i subscribing lost s.loops_wg at refl (omega arith)
Step-Counted {s} (Step.ends i at told) c =
    loops-Counted c i running ended (s.loops_wg - 1) at
      (omega (arith, total-set pending s.loops i running ended at, c.loops_counted)) (omega arith)
Step-Counted {s} Step.arrives c =
    session-Counted c (s.sessions ++ arriving ∷ []) s.wg
      (omega (arith, total-append inside s.sessions (arriving ∷ []), c.sessions_counted))
      (λ h. omega (arith, total-append connected s.sessions (arriving ∷ []), c.cut h))
      (λ h. omega (arith, total-append in_set s.sessions (arriving ∷ []), c.left h))
Step-Counted {s} (Step.refuses i at st q) c =
    goes-Counted c i arriving finished s.wg at refl (λ h. omega arith) (λ h. omega arith)
Step-Counted {s} (Step.admits i at st q) c =
    goes-Counted c i arriving admitted s.wg at refl (λ h. omega arith) (λ h. omega arith)
Step-Counted {s} (Step.counts i at) c =
    goes-Counted c i admitted handling (s.wg + 1) at (omega arith) (λ h. omega arith)
      (λ h. omega arith)
Step-Counted {s} (Step.gives_up i at) c =
    goes-Counted c i handling finished (s.wg - 1) at
      (omega (arith, total-set inside s.sessions i handling finished at, c.sessions_counted))
      (λ h. omega arith) (λ h. omega arith)
Step-Counted {s} (Step.shakes i at) c =
    goes-Counted c i handling shaken s.wg at refl (λ h. omega arith) (λ h. omega arith)
Step-Counted {s} (Step.rejects i at) c =
    goes-Counted c i shaken finished (s.wg - 1) at
      (omega (arith, total-set inside s.sessions i shaken finished at, c.sessions_counted))
      (λ h. omega arith) (λ h. omega arith)
Step-Counted {s} (Step.registers i at open') c =
    goes-Counted c i shaken registered s.wg at refl
      (λ h. absurd (ground (arith, h, c.closed, open')))
      (λ h. absurd (still_open s.phase (sym c.closed ∙ open') h))
Step-Counted {s} (Step.too_late i at shut') c =
    goes-Counted c i shaken finished (s.wg - 1) at
      (omega (arith, total-set inside s.sessions i shaken finished at, c.sessions_counted))
      (λ h. omega arith) (λ h. omega arith)
Step-Counted {s} (Step.drops i at) c =
    goes-Counted c i registered dropped s.wg at refl (λ h. omega arith) (λ h. omega arith)
Step-Counted {s} (Step.returns i at) c =
    goes-Counted c i dropped finished (s.wg - 1) at
      (omega (arith, total-set inside s.sessions i dropped finished at, c.sessions_counted))
      (λ h. omega arith) (λ h. omega arith)
Step-Counted {s} (Step.stops at) c =
    phase-Counted c (stopping 0) s.started s.quit_sync s.peers_closed (sym (ap spawned_at at))
      (omega arith) (λ h. absurd (ground arith)) (c.closed ∙ ap shut at)
      (λ h. absurd (ground arith)) (λ h. absurd (ground arith))
Step-Counted {s} (Step.closes_stop n at lt) c =
    phase-Counted c (stopping (n + 1)) s.started s.quit_sync s.peers_closed (sym (ap spawned_at at))
      (omega arith) (λ h. absurd (ground arith)) (c.closed ∙ ap shut at)
      (λ h. absurd (ground arith)) (λ h. absurd (ground arith))
Step-Counted {s} (Step.waits_loops at none_left) c =
    phase-Counted c waited s.started s.quit_sync s.peers_closed (sym (ap spawned_at at))
      (omega arith) (λ h. none_left) (c.closed ∙ ap shut at) (λ h. absurd (ground arith))
      (λ h. absurd (ground arith))
Step-Counted {s} (Step.quits at) c =
    phase-Counted c quitting s.started true s.peers_closed (sym (ap spawned_at at)) (omega arith)
      (λ h. c.loops_over (ap over_loops at)) (c.closed ∙ ap shut at) (λ h. absurd (ground arith))
      (λ h. absurd (ground arith))
Step-Counted {s} (Step.closes_peers at) c = record {
  loops_counted = c.loops_counted;
  sessions_counted = inside-cut_off s.sessions ∙ c.sessions_counted;
  all_spawned = c.all_spawned ∙ ap spawned_at at;
  loops_over = λ h. c.loops_over (ap over_loops at);
  closed = refl;
  stop_bound = omega arith;
  cut = λ h. connected-cut_off s.sessions;
  left = λ h. absurd (ground arith);
}
Step-Counted {s} (Step.waits_sessions at none_left) c =
    phase-Counted c stopped s.started s.quit_sync s.peers_closed (sym (ap spawned_at at))
      (omega arith) (λ h. c.loops_over (ap over_loops at)) (c.closed ∙ ap shut at)
      (λ h. c.cut (ap shut at))
      (λ h. omega (arith, in_set-le-inside s.sessions, c.sessions_counted, none_left))

pub Reach-Counted : {s t : Node} → Counted s → Reach s t → Counted t
Reach-Counted c here = c
Reach-Counted c (next r st) = Step-Counted st (Reach-Counted c r)
