-- ===== src/Lifecycle/Stopped.antt =====
-- What holds once Stop has returned, and what keeps it from returning.
use sonicpeer.Base.{
  ℕ, zero, suc, ◌<◌, ◌≡◌, ◌≢◌, refl, sym, ap, ◌∙◌, true, false, List, [], ◌∷◌, ◌++◌, some, arith,
  ◌==◌, get_elem?, set, length, All, Bool-cases, inl, inr, some-injective,
}
use sonicpeer.Lifecycle.{
  Loop, subscribing, running, ended, lost, Session, arriving, admitted, handling, shaken,
  registered, dropped, finished, stopped, Node, new_node, spawned, Step, Reach, here, next,
}
use sonicpeer.Lifecycle.Counted.{new_node-Counted, Reach-Counted}
use sonicpeer.Lifecycle.Counting.{total, pending, spawned_at, in_set, over_loops, is_stopped}

-- Stop returns at most once.
Step-stopped : {s t : Node} → Step s t → s.phase ≡ stopped → t.phase ≡ stopped
Step-stopped (Step.spawns n at lt) h = absurd (ground arith)
Step-stopped (Step.starts at) h = absurd (ground arith)
Step-stopped (Step.subscribes i at) h = h
Step-stopped (Step.fails i at) h = h
Step-stopped (Step.ends i at told) h = h
Step-stopped Step.arrives h = h
Step-stopped (Step.refuses i at st q) h = h
Step-stopped (Step.admits i at st q) h = h
Step-stopped (Step.counts i at) h = h
Step-stopped (Step.registers i at o) h = h
Step-stopped (Step.gives_up i at) h = h
Step-stopped (Step.returns i at) h = h
Step-stopped (Step.shakes i at) h = h
Step-stopped (Step.rejects i at) h = h
Step-stopped (Step.too_late i at o) h = h
Step-stopped (Step.drops i at) h = h
Step-stopped (Step.stops at) h = absurd (ground arith)
Step-stopped (Step.closes_stop n at lt) h = absurd (ground arith)
Step-stopped (Step.waits_loops at n) h = absurd (ground arith)
Step-stopped (Step.quits at) h = absurd (ground arith)
Step-stopped (Step.closes_peers at) h = absurd (ground arith)
Step-stopped (Step.waits_sessions at n) h = refl

Reach-stopped : {s t : Node} → Reach s t → s.phase ≡ stopped → t.phase ≡ stopped
Reach-stopped here h = h
Reach-stopped (next r st) h = Step-stopped st (Reach-stopped r h)

pub Reach-trans : {s t u : Node} → Reach s t → Reach t u → Reach s u
Reach-trans r here = r
Reach-trans r (next q st) = next (Reach-trans r q) st

none_pending : (loops : List Loop) → total pending loops ≡ 0 → All (λ l. l ≡ ended) loops
none_pending [] h = tt
none_pending (ended ∷ loops) h = (refl, none_pending loops (omega (arith, h)))
none_pending (subscribing ∷ loops) h = absurd (omega (arith, h))
none_pending (running ∷ loops) h = absurd (omega (arith, h))
none_pending (lost ∷ loops) h = absurd (omega (arith, h))

none_in_set :
    (sessions : List Session)
    → total in_set sessions ≡ 0
    → All (λ x. (x ≢ registered) × (x ≢ dropped)) sessions
none_in_set [] h = tt
none_in_set (registered ∷ sessions) h = absurd (omega (arith, h))
none_in_set (dropped ∷ sessions) h = absurd (omega (arith, h))
none_in_set (arriving ∷ sessions) h =
    ((ground arith, ground arith), none_in_set sessions (omega (arith, h)))
none_in_set (admitted ∷ sessions) h =
    ((ground arith, ground arith), none_in_set sessions (omega (arith, h)))
none_in_set (handling ∷ sessions) h =
    ((ground arith, ground arith), none_in_set sessions (omega (arith, h)))
none_in_set (shaken ∷ sessions) h =
    ((ground arith, ground arith), none_in_set sessions (omega (arith, h)))
none_in_set (finished ∷ sessions) h =
    ((ground arith, ground arith), none_in_set sessions (omega (arith, h)))

-- When Stop has returned, the four loops that Start spawned have returned, and no session is registered
-- in the set of peers, then or ever after.
pub stopped-ended :
    {t u : Node}
    → Reach new_node t
    → t.phase ≡ stopped
    → Reach t u
    → (length u.loops ≡ 4)
      × All (λ l. l ≡ ended) u.loops
      × All (λ x. (x ≢ registered) × (x ≢ dropped)) u.sessions
stopped-ended r h q =
    let c = Reach-Counted new_node-Counted (Reach-trans r q) in
    let over = Reach-stopped q h in
    (
      c.all_spawned ∙ ap spawned_at over,
      none_pending _ (c.loops_counted ∙ c.loops_over (ap over_loops over)),
      none_in_set _ (c.left (ap is_stopped over)),
    )

get_elem?-set-ne :
    {A : Type 0} (xs : List A) (i j : ℕ) (v : A)
    → (i == j) ≡ false
    → get_elem? (set xs i v) j ≡ get_elem? xs j
get_elem?-set-ne [] i j v h = refl
get_elem?-set-ne (x ∷ xs) zero zero v h = absurd (ground arith)
get_elem?-set-ne (x ∷ xs) zero (suc j) v h = refl
get_elem?-set-ne (x ∷ xs) (suc i) zero v h = refl
get_elem?-set-ne (x ∷ xs) (suc i) (suc j) v h = get_elem?-set-ne xs i j v (ground (arith, h))

get_elem?-append :
    {A : Type 0} (xs ys : List A) (i : ℕ) (x : A)
    → get_elem? xs i ≡ some x
    → get_elem? (xs ++ ys) i ≡ some x
get_elem?-append [] ys i x h = absurd (ground (arith, h))
get_elem?-append (y ∷ xs) ys zero x h = h
get_elem?-append (y ∷ xs) ys (suc i) x h = get_elem?-append xs ys i x h

-- A loop that is lost stays lost.
set-lost :
    (loops : List Loop) (i j : ℕ) (x y : Loop)
    → get_elem? loops i ≡ some x
    → x ≢ lost
    → get_elem? loops j ≡ some lost
    → get_elem? (set loops i y) j ≡ some lost
set-lost loops i j x y at other h = elim (Bool-cases (i == j)) [
  | inl same ↦
      let key : i ≡ j = ground arith in
      absurd (other (some-injective (sym at ∙ ap (get_elem? loops) key ∙ h)))
  | inr apart ↦ get_elem?-set-ne loops i j y apart ∙ h
]

Step-lost :
    {s t : Node} (j : ℕ)
    → Step s t
    → get_elem? s.loops j ≡ some lost
    → get_elem? t.loops j ≡ some lost
Step-lost {s} j (Step.spawns n at lt) h = get_elem?-append s.loops (spawned n ∷ []) j lost h
Step-lost j (Step.starts at) h = h
Step-lost {s} j (Step.subscribes i at) h =
    set-lost s.loops i j subscribing running at (ground arith) h
Step-lost {s} j (Step.fails i at) h = set-lost s.loops i j subscribing lost at (ground arith) h
Step-lost {s} j (Step.ends i at told) h = set-lost s.loops i j running ended at (ground arith) h
Step-lost j Step.arrives h = h
Step-lost j (Step.refuses i at st q) h = h
Step-lost j (Step.admits i at st q) h = h
Step-lost j (Step.counts i at) h = h
Step-lost j (Step.registers i at o) h = h
Step-lost j (Step.gives_up i at) h = h
Step-lost j (Step.returns i at) h = h
Step-lost j (Step.shakes i at) h = h
Step-lost j (Step.rejects i at) h = h
Step-lost j (Step.too_late i at o) h = h
Step-lost j (Step.drops i at) h = h
Step-lost j (Step.stops at) h = h
Step-lost j (Step.closes_stop n at lt) h = h
Step-lost j (Step.waits_loops at n) h = h
Step-lost j (Step.quits at) h = h
Step-lost j (Step.closes_peers at) h = h
Step-lost j (Step.waits_sessions at n) h = h

Reach-lost :
    {s t : Node} (j : ℕ)
    → Reach s t
    → get_elem? s.loops j ≡ some lost
    → get_elem? t.loops j ≡ some lost
Reach-lost j here h = h
Reach-lost j (next r st) h = Step-lost j st (Reach-lost j r h)

lost-pending : (loops : List Loop) (j : ℕ) → get_elem? loops j ≡ some lost → 0 < total pending loops
lost-pending [] j h = absurd (ground (arith, h))
lost-pending (x ∷ loops) zero h = ground (arith, h)
lost-pending (x ∷ loops) (suc j) h = omega (arith, lost-pending loops j h)

-- Once NodeProgressLoop has failed to subscribe, Stop never gets past its wait for the loops: no later
-- state has `quitSync` or the set of peers closed by it, nor has Stop returned.
pub lost-waits :
    {t u : Node} (j : ℕ)
    → Reach new_node t
    → get_elem? t.loops j ≡ some lost
    → Reach t u
    → over_loops u.phase ≢ true
lost-waits {t} {u} j r h q over =
    let c = Reach-Counted new_node-Counted (Reach-trans r q) in
    omega (arith, lost-pending u.loops j (Reach-lost j q h), c.loops_counted, c.loops_over over)
