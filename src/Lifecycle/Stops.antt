-- ===== src/Lifecycle/Stops.antt =====
-- How Stop comes to its end.
use sonicpeer.Base.{
  ℕ, zero, suc, ◌+◌, ◌-◌, ◌≤◌, ◌<◌, ◌≡◌, ◌≢◌, refl, sym, ap, subst, ◌∙◌, ◌⊎◌, inl, inr, Bool, true,
  false, List, [], ◌∷◌, some, arith, get_elem?, set, length, All,
}
use sonicpeer.Lifecycle.{
  Loop, subscribing, running, ended, lost, Session, arriving, admitted, handling, shaken,
  registered, dropped, finished, Phase, starting, up, stopping, waited, quitting, disconnected,
  stopped, Node, new_node, goes, closed_stops, Step, Reach,
}
use sonicpeer.Lifecycle.Counted.{Counted, new_node-Counted, Step-Counted, Reach-Counted}
use sonicpeer.Lifecycle.Counting.{total, spawned_at, total-set, pending, inside, connected, shut}

-- The steps that the node takes without its peers: all but a connection that arrives, a handshake that
-- is answered, and a connection that the remote side closes.
abbrev pub unaided : {s t : Node} → Step s t → Bool
unaided Step.arrives = false
unaided (Step.shakes i at) = false
unaided (Step.drops i at) = false
unaided _ = true

-- The states that follow a state by such steps
pub data Settles (s : Node) : Node → Type 0 where
  here : Settles s s
  next : {t u : Node} → Settles s t → (st : Step t u) → unaided st ≡ true → Settles s u

Settles-trans : {s t u : Node} → Settles s t → Settles t u → Settles s u
Settles-trans r here = r
Settles-trans r (next q st alone) = next (Settles-trans r q) st alone

Settles-Counted : {s t : Node} → Counted s → Settles s t → Counted t
Settles-Counted c here = c
Settles-Counted c (next r st alone) = Step-Counted st (Settles-Counted c r)

-- Some state that follows so passes a test.
abbrev Later : Node → (Node → Type 0) → Type 0
Later s P = (u : Node) × Settles s u × P u

first : {s t : Node} {P : Node → Type 0} (st : Step s t) → unaided st ≡ true → Later t P → Later s P
first st alone (u, r, p) = (u, Settles-trans (next here st alone) r, p)

close_stops :
    (k n : ℕ) (s : Node)
    → s.phase ≡ stopping n
    → n + k ≡ 4
    → Later s (λ u. (u.phase ≡ stopping 4) × (u.loops ≡ s.loops))
close_stops zero n s at sum = (s, here, (at ∙ ap stopping (omega (arith, sum)), refl))
close_stops (suc k) n s at sum =
    first (Step.closes_stop n at (omega (arith, sum))) refl
      (close_stops k (n + 1) (record s { phase = stopping (n + 1) }) refl (omega (arith, sum)))

abbrev Found : List Loop → Loop → Type 0
Found loops l = (i : ℕ) × (get_elem? loops i ≡ some l) × (i < length loops)

find_loop :
    (loops : List Loop)
    → All (λ l. l ≢ lost) loops
    → (total pending loops ≡ 0) ⊎ (Found loops subscribing ⊎ Found loops running)
find_loop [] h = inl refl
find_loop (subscribing ∷ loops) h = inr (inl (0, refl, omega arith))
find_loop (running ∷ loops) h = inr (inr (0, refl, omega arith))
find_loop (lost ∷ loops) h = absurd (h.0 refl)
find_loop (ended ∷ loops) h = elim (find_loop loops h.1) [
  | inl e ↦ inl (omega (arith, e))
  | inr (inl (i, at, lt)) ↦ inr (inl (suc i, at, omega (arith, lt)))
  | inr (inr (i, at, lt)) ↦ inr (inr (suc i, at, omega (arith, lt)))
]

All-set :
    {A : Type 0} (P : A → Type 0) (xs : List A) (i : ℕ) (v : A)
    → P v
    → All P xs
    → All P (set xs i v)
All-set P [] i v p h = tt
All-set P (x ∷ xs) zero v p h = (p, h.1)
All-set P (x ∷ xs) (suc i) v p h = (h.0, All-set P xs i v p h.1)

-- The steps that a loop still has to take.
abbrev work : Loop → ℕ
work subscribing = 2
work running = 1
work _ = 0

finish_loops :
    (fuel : ℕ) (s : Node)
    → Counted s
    → s.phase ≡ stopping 4
    → All (λ l. l ≢ lost) s.loops
    → total work s.loops ≤ fuel
    → Later s (λ u. (u.phase ≡ stopping 4) × (total pending u.loops ≡ 0))
finish_loops zero s c at kept enough = elim (find_loop s.loops kept) [
  | inl done ↦ (s, here, (at, done))
  | inr (inl (i, there', lt)) ↦
      absurd (omega (arith, total-set work s.loops i subscribing running there', enough))
  | inr (inr (i, there', lt)) ↦
      absurd (omega (arith, total-set work s.loops i running ended there', enough))
]
finish_loops (suc fuel) s c at kept enough = elim (find_loop s.loops kept) [
  | inl done ↦ (s, here, (at, done))
  | inr (inl (i, there', lt)) ↦
      let st : Step s (record s { loops = set s.loops i running }) = Step.subscribes i there' in
      first st refl (
        finish_loops fuel (record s { loops = set s.loops i running }) (Step-Counted st c) at
          (All-set (λ l. l ≢ lost) s.loops i running (ground arith) kept)
          (omega (arith, total-set work s.loops i subscribing running there', enough)))
  | inr (inr (i, there', lt)) ↦
      let st : Step s (record s { loops = set s.loops i ended; loops_wg = s.loops_wg - 1 }) =
        Step.ends i there'
          (omega (arith, lt, c.all_spawned, ap spawned_at at, ap closed_stops at)) in
      first st refl (
        finish_loops fuel (record s { loops = set s.loops i ended; loops_wg = s.loops_wg - 1 })
          (Step-Counted st c) at (All-set (λ l. l ≢ lost) s.loops i ended (ground arith) kept)
          (omega (arith, total-set work s.loops i running ended there', enough)))
]

-- A session that is inside `handle`, and whose connection does not stand
abbrev Leaving : List Session → Type 0
Leaving sessions =
    (i : ℕ) × (x : Session) × (get_elem? sessions i ≡ some x) × (inside x ≡ 1) × (connected x ≡ 0)

skipped :
    (y : Session) (sessions : List Session)
    → inside y ≡ 0
    → (total inside sessions ≡ 0) ⊎ Leaving sessions
    → (total inside (y ∷ sessions) ≡ 0) ⊎ Leaving (y ∷ sessions)
skipped y sessions out (inl e) = inl (omega (arith, e, out))
skipped y sessions out (inr (i, x, at, one, cut)) = inr (suc i, x, at, one, cut)

find_session :
    (sessions : List Session)
    → total connected sessions ≡ 0
    → (total inside sessions ≡ 0) ⊎ Leaving sessions
find_session [] cut = inl refl
find_session (handling ∷ sessions) cut = inr (0, handling, refl, refl, refl)
find_session (shaken ∷ sessions) cut = inr (0, shaken, refl, refl, refl)
find_session (dropped ∷ sessions) cut = inr (0, dropped, refl, refl, refl)
find_session (registered ∷ sessions) cut = absurd (omega (arith, cut))
find_session (arriving ∷ sessions) cut =
    skipped arriving sessions refl (find_session sessions (omega (arith, cut)))
find_session (admitted ∷ sessions) cut =
    skipped admitted sessions refl (find_session sessions (omega (arith, cut)))
find_session (finished ∷ sessions) cut =
    skipped finished sessions refl (find_session sessions (omega (arith, cut)))

-- Such a session ends by itself once the set of peers is closed.
leaves :
    (s : Node) (i : ℕ) (x : Session)
    → get_elem? s.sessions i ≡ some x
    → inside x ≡ 1
    → connected x ≡ 0
    → s.peers_closed ≡ true
    → (st : Step s (record (goes s i finished) { wg = s.wg - 1 })) × (unaided st ≡ true)
leaves s i handling at one cut over = (Step.gives_up i at, refl)
leaves s i shaken at one cut over = (Step.too_late i at over, refl)
leaves s i dropped at one cut over = (Step.returns i at, refl)
leaves s i registered at one cut over = absurd (ground (arith, cut))
leaves s i arriving at one cut over = absurd (ground (arith, one))
leaves s i admitted at one cut over = absurd (ground (arith, one))
leaves s i finished at one cut over = absurd (ground (arith, one))

finish_sessions :
    (fuel : ℕ) (s : Node)
    → Counted s
    → s.phase ≡ disconnected
    → s.wg ≤ fuel
    → Later s (λ u. (u.phase ≡ disconnected) × (u.wg ≡ 0))
finish_sessions zero s c at enough = (s, here, (at, omega (arith, enough)))
finish_sessions (suc fuel) s c at enough = elim (find_session s.sessions (c.cut (ap shut at))) [
  | inl done ↦ (s, here, (at, omega (arith, c.sessions_counted, done)))
  | inr (i, x, there', one, cut) ↦
      let (st, alone) = leaves s i x there' one cut (c.closed ∙ ap shut at) in
      first st alone (
        finish_sessions fuel (record (goes s i finished) { wg = s.wg - 1 }) (Step-Counted st c) at
          (omega (arith, enough)))
]

-- Stop, from its last step backwards.
from_disconnected :
    (s : Node) → Counted s → s.phase ≡ disconnected → Later s (λ u. u.phase ≡ stopped)
from_disconnected s c at =
    let (u, r, (at', gone)) = finish_sessions s.wg s c at (omega arith) in
    (record u { phase = stopped }, next r (Step.waits_sessions at' gone) refl, refl)

from_quitting : (s : Node) → Counted s → s.phase ≡ quitting → Later s (λ u. u.phase ≡ stopped)
from_quitting s c at =
    let st = Step.closes_peers at in first st refl (from_disconnected _ (Step-Counted st c) refl)

from_waited : (s : Node) → Counted s → s.phase ≡ waited → Later s (λ u. u.phase ≡ stopped)
from_waited s c at =
    let st = Step.quits at in first st refl (from_quitting _ (Step-Counted st c) refl)

from_stopping :
    (n : ℕ) (s : Node)
    → Counted s
    → s.phase ≡ stopping n
    → All (λ l. l ≢ lost) s.loops
    → Later s (λ u. u.phase ≡ stopped)
from_stopping n s c at kept =
    let bound : n ≤ 4 = omega (arith, c.stop_bound, ap closed_stops at) in
    let (t, q, (at', same)) = close_stops (4 - n) n s at (omega (arith, bound)) in
    let c' = Settles-Counted c q in
    let (u, r, (at'', none_left)) =
      finish_loops (total work t.loops) t c' at'
        (subst (λ l. All (λ x. x ≢ lost) l) (sym same) kept) (omega arith) in
    let c'' = Settles-Counted c' r in
    let st = Step.waits_loops at'' (sym c''.loops_counted ∙ none_left) in
    let (v, r', over) = first st refl (from_waited _ (Step-Counted st c'') refl) in
    (v, Settles-trans q (Settles-trans r r'), over)

-- `Stop` has been called.
abbrev pub has_begun : Phase → Bool
has_begun (starting n) = false
has_begun up = false
has_begun _ = true

from_phase :
    (f : Phase) (s : Node)
    → Counted s
    → s.phase ≡ f
    → has_begun f ≡ true
    → All (λ l. l ≢ lost) s.loops
    → Later s (λ u. u.phase ≡ stopped)
from_phase (starting n) s c at begun kept = absurd (ground (arith, begun))
from_phase up s c at begun kept = absurd (ground (arith, begun))
from_phase (stopping n) s c at begun kept = from_stopping n s c at kept
from_phase waited s c at begun kept = from_waited s c at
from_phase quitting s c at begun kept = from_quitting s c at
from_phase disconnected s c at begun kept = from_disconnected s c at
from_phase stopped s c at begun kept = (s, here, at)

-- Stop can always return: from every reachable state in which Stop has begun, up to the last of its
-- waits, and in which NodeProgressLoop has not failed to subscribe, some steps of the loops, the
-- sessions and Stop lead to its end, none of which is a step of a remote peer: no connection has to
-- arrive, no handshake has to be answered, and no remote side has to close a connection.
pub stops-return :
    {s : Node}
    → Reach new_node s
    → has_begun s.phase ≡ true
    → All (λ l. l ≢ lost) s.loops
    → (u : Node) × Settles s u × (u.phase ≡ stopped)
stops-return {s} r begun kept =
    from_phase s.phase s (Reach-Counted new_node-Counted r) refl begun kept
