-- ===== src/Sidecar/Accounts.antt =====
-- Where the announcements go.
use sonicpeer.Base.{
  ℕ, ◌+◌, ◌-◌, ◌^◌, ◌≤◌, ◌<◌, ◌≡◌, refl, sym, ap, subst, ◌∙◌, inl, inr, Bool, true, false, ◌&&◌,
  if◌then◌else◌, List, [], ◌∷◌, Option, none, some, arith, ◌==◌, length, length-append, lookup,
  store, erase, lookup-erase, Distinct, erase-Distinct, All, All-lookup, Bool-cases, Option-cases,
}
use sonicpeer.Sidecar.{
  Arrival, Delta, Tracker, same_kind, record_arrival, is_stale, orphaned, clean_up, heartbeat, Call,
  arrival, beat, step, run,
}
use sonicpeer.Sidecar.Followed.{step-follows}

module _ {V : Type 0} where
  length-store :
      (k : ℕ) (v : V) (m : List (ℕ × V)) → lookup k m ≡ none → length (store k v m) ≡ length m + 1
  length-store k v [] h = refl
  length-store k v ((j, w) ∷ m) h = ground (arith, length-store k v m)

  length-erase :
      (k : ℕ) (v : V) (m : List (ℕ × V)) → lookup k m ≡ some v → length (erase k m) + 1 ≡ length m
  length-erase k v [] h = absurd (ground (arith, h))
  length-erase k v ((j, w) ∷ m) h = ground (arith, length-erase k v m)

  still_there :
      (k : ℕ) (m l : List (ℕ × V))
      → Distinct m
      → lookup k l ≡ none
      → All (λ x. lookup x.0 m ≡ some x.1) l
      → All (λ x. lookup x.0 (erase k m) ≡ some x.1) l
  still_there k m [] dist new there' = tt
  still_there k m ((j, v) ∷ l) dist new there' = (
    lookup-erase k j m dist ∙ (elim (Bool-cases (k == j)) [
      | inl same ↦ absurd (ground (arith, new))
      | inr other ↦ rw other there'.0
    ]),
    still_there k m l dist (ground (arith, new)) there'.1,
  )

-- The announcements that have been paired, have gone stale, or still wait.
abbrev pub total : Tracker → ℕ
total t = length t.deltas + t.sonic_orphans + t.standard_orphans + length t.seen

abbrev is_new : Option Arrival → ℕ
is_new none = 1
is_new (some _) = 0

-- How many announcements start to wait.
pub openings : List Call → Tracker → ℕ
openings [] t = 0
openings (arrival hash is_sonic now ∷ calls) t =
    is_new (lookup hash t.seen) + openings calls (step (arrival hash is_sonic now) t)
openings (beat now sentry standard ∷ calls) t = openings calls (step (beat now sentry standard) t)

is_new-le : (o : Option Arrival) → is_new o ≤ 1
is_new-le none = omega arith
is_new-le (some a) = omega arith

total-record_arrival :
    (hash : ℕ) (is_sonic : Bool) (now : ℕ) (t : Tracker)
    → total (record_arrival hash is_sonic now t) ≡ total t + is_new (lookup hash t.seen)
unfolding record_arrival
total-record_arrival hash is_sonic now t = elim (Option-cases (lookup hash t.seen)) [
  | inl new ↦
      rw (new, record_arrival)
        (omega (
          arith,
          length-store hash (record { ts = now; is_sonic = is_sonic }) t.seen new,
          ap is_new new,
        ))
  | inr (first, known) ↦ elim (Bool-cases (same_kind first.is_sonic is_sonic)) [
    | inl same ↦ rw (known, record_arrival) (rw same (omega (arith, ap is_new known)))
    | inr differs ↦
        let d : Delta = record { sonic_first = first.is_sonic; by = now - first.ts } in
        rw (known, record_arrival)
          (rw differs (
            omega (
              arith,
              length-append t.deltas (d ∷ []),
              length-erase hash first t.seen known,
              ap is_new known,
            )))
  ]
]

total-orphaned :
    (hash : ℕ) (a : Arrival) (t : Tracker)
    → lookup hash t.seen ≡ some a
    → total t < 2 ^ 64
    → (total (orphaned hash a t) ≡ total t) × ((orphaned hash a t).seen ≡ erase hash t.seen)
total-orphaned hash a t known small =
    let one = length-erase hash a t.seen known in ground (arith, one)

total-clean_up :
    (now : ℕ) (entries : List (ℕ × Arrival)) (t : Tracker)
    → Distinct entries
    → Distinct t.seen
    → All (λ x. lookup x.0 t.seen ≡ some x.1) entries
    → total t < 2 ^ 64
    → total (clean_up now entries t) ≡ total t
unfolding clean_up
total-clean_up now [] t d dist there' small = refl
total-clean_up now ((k, a) ∷ entries) t d dist there' small = elim (Bool-cases (is_stale now a)) [
  | inr fresh ↦ rw (fresh, clean_up) (total-clean_up now entries t d.1 dist there'.1 small)
  | inl old ↦
      let (same, erased) = total-orphaned k a t there'.0 small in
      rw (old, clean_up)
        (total-clean_up now entries (orphaned k a t) d.1
            (subst (λ m. Distinct m) (sym erased) (erase-Distinct k t.seen dist))
            (subst (λ m. All (λ x. lookup x.0 m ≡ some x.1) entries) (sym erased)
              (still_there k t.seen entries dist d.0 there'.1))
            (omega (arith, same, small))
          ∙ same)
]

-- The entries of one kind of node that are stale.
abbrev pub stale_of : Bool → ℕ → List (ℕ × Arrival) → ℕ
stale_of kind now [] = 0
stale_of kind now ((hash, a) ∷ entries) =
    (if same_kind kind a.is_sonic && is_stale now a then 1 else 0) + stale_of kind now entries

-- How many announcements of one kind of node are stale at the ticks that find them.
pub lost_of : Bool → List Call → Tracker → ℕ
lost_of kind [] t = 0
lost_of kind (arrival hash is_sonic now ∷ calls) t =
    lost_of kind calls (step (arrival hash is_sonic now) t)
lost_of kind (beat now sentry standard ∷ calls) t =
    stale_of kind now t.seen + lost_of kind calls (step (beat now sentry standard) t)

-- The counter of one kind of node
abbrev pub orphans_of : Bool → Tracker → ℕ
orphans_of true t = t.sonic_orphans
orphans_of false t = t.standard_orphans

orphans_of-record_arrival :
    (kind : Bool) (hash : ℕ) (is_sonic : Bool) (now : ℕ) (t : Tracker)
    → orphans_of kind (record_arrival hash is_sonic now t) ≡ orphans_of kind t
unfolding record_arrival
orphans_of-record_arrival true hash is_sonic now t = ground arith
orphans_of-record_arrival false hash is_sonic now t = ground arith

orphans_of-orphaned :
    (kind : Bool) (hash : ℕ) (a : Arrival) (t : Tracker)
    → t.sonic_orphans + 1 < 2 ^ 64
    → t.standard_orphans + 1 < 2 ^ 64
    → orphans_of kind (orphaned hash a t)
      ≡ orphans_of kind t + (if same_kind kind a.is_sonic then 1 else 0)
orphans_of-orphaned true hash a t few few' = ground arith
orphans_of-orphaned false hash a t few few' = ground arith

orphaned-le :
    (hash : ℕ) (a : Arrival) (t : Tracker)
    → (orphaned hash a t).sonic_orphans ≤ t.sonic_orphans + 1
      × ((orphaned hash a t).standard_orphans ≤ t.standard_orphans + 1)
orphaned-le hash a t = (ground arith, ground arith)

-- Each stale entry is counted for the kind of node that announced it.
orphans_of-clean_up :
    (kind : Bool) (now : ℕ) (entries : List (ℕ × Arrival)) (t : Tracker)
    → t.sonic_orphans + length entries < 2 ^ 64
    → t.standard_orphans + length entries < 2 ^ 64
    → orphans_of kind (clean_up now entries t) ≡ orphans_of kind t + stale_of kind now entries
unfolding clean_up
orphans_of-clean_up kind now [] t few few' = omega arith
orphans_of-clean_up kind now ((k, a) ∷ entries) t few few' = elim (Bool-cases (is_stale now a)) [
  | inr fresh ↦ rw fresh (
      ground
        (arith, orphans_of-clean_up kind now entries t (omega (arith, few)) (omega (arith, few'))))
  | inl old ↦
      let one = orphans_of-orphaned kind k a t (omega (arith, few)) (omega (arith, few')) in
      let sonic : (orphaned k a t).sonic_orphans ≤ t.sonic_orphans + 1 = (orphaned-le k a t).0 in
      let standard : (orphaned k a t).standard_orphans ≤ t.standard_orphans + 1 =
        (orphaned-le k a t).1 in
      let rest =
        orphans_of-clean_up kind now entries (orphaned k a t) (omega (arith, few, sonic))
          (omega (arith, few', standard)) in
      rw old (ground (arith, one, rest))
]

counts_beat :
    (kind : Bool) (now : ℕ) (sentry : Option ℕ) (standard : List (Option ℕ)) (t : Tracker)
    → total t < 2 ^ 64
    → orphans_of kind (step (beat now sentry standard) t)
      ≡ orphans_of kind t + stale_of kind now t.seen
unfolding step heartbeat
counts_beat true now sentry standard t small =
    orphans_of-clean_up true now t.seen t (omega (arith, small)) (omega (arith, small))
counts_beat false now sentry standard t small =
    orphans_of-clean_up false now t.seen t (omega (arith, small)) (omega (arith, small))

run-accounted :
    (calls : List Call) (t : Tracker)
    → Distinct t.seen
    → total t + length calls < 2 ^ 64
    → total (run calls t) ≡ total t + openings calls t
unfolding run openings step heartbeat
run-accounted [] t dist small = omega arith
run-accounted (arrival hash is_sonic now ∷ calls) t dist small =
    let c = arrival hash is_sonic now in
    let e : total (step c t) ≡ total t + is_new (lookup hash t.seen) =
      total-record_arrival hash is_sonic now t in
    let (dist', _) = step-follows c t 0 dist in
    omega (
      arith,
      e,
      run-accounted calls (step c t) dist'
          (omega (arith, e, small, is_new-le (lookup hash t.seen))),
    )
run-accounted (beat now sentry standard ∷ calls) t dist small =
    let c = beat now sentry standard in
    let e : total (step c t) ≡ total t =
      total-clean_up now t.seen t dist dist (All-lookup t.seen dist) (omega (arith, small)) in
    let (dist', _) = step-follows c t 0 dist in
    omega (arith, e, run-accounted calls (step c t) dist' (omega (arith, e, small)))

run-orphans_of :
    (kind : Bool) (calls : List Call) (t : Tracker)
    → Distinct t.seen
    → total t + length calls < 2 ^ 64
    → orphans_of kind (run calls t) ≡ orphans_of kind t + lost_of kind calls t
unfolding run lost_of step heartbeat
run-orphans_of kind [] t dist small = omega arith
run-orphans_of kind (arrival hash is_sonic now ∷ calls) t dist small =
    let c = arrival hash is_sonic now in
    let e : total (step c t) ≡ total t + is_new (lookup hash t.seen) =
      total-record_arrival hash is_sonic now t in
    let (dist', _) = step-follows c t 0 dist in
    omega (
      arith,
      orphans_of-record_arrival kind hash is_sonic now t,
      run-orphans_of kind calls (step c t) dist'
          (omega (arith, e, small, is_new-le (lookup hash t.seen))),
    )
run-orphans_of kind (beat now sentry standard ∷ calls) t dist small =
    let c = beat now sentry standard in
    let e : total (step c t) ≡ total t =
      total-clean_up now t.seen t dist dist (All-lookup t.seen dist) (omega (arith, small)) in
    let (dist', _) = step-follows c t 0 dist in
    let counted : orphans_of kind (step c t) ≡ orphans_of kind t + stale_of kind now t.seen =
      counts_beat kind now sentry standard t (omega (arith, small)) in
    omega (arith, counted, run-orphans_of kind calls (step c t) dist' (omega (arith, e, small)))

-- Every announcement that starts to wait is paired, goes stale and is counted for its kind of node, or
-- still waits, and none is counted twice: as long as there are fewer than 2 ^ 64 of them, the deltas, the
-- two counters and the entries add up to the announcements that have started to wait, and the counter of
-- each kind of node grows by exactly the announcements of that kind that the ticks find stale.
pub run-total :
    (calls : List Call) (t : Tracker)
    → Distinct t.seen
    → total t + length calls < 2 ^ 64
    → (total (run calls t) ≡ total t + openings calls t)
      × ((run calls t).sonic_orphans ≡ t.sonic_orphans + lost_of true calls t)
      × ((run calls t).standard_orphans ≡ t.standard_orphans + lost_of false calls t)
run-total calls t dist small = (
  run-accounted calls t dist small,
  run-orphans_of true calls t dist small,
  run-orphans_of false calls t dist small,
)
