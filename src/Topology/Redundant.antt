-- ===== src/Topology/Redundant.antt =====
-- Whom GetRedundantPeerSuggestion suggests, where no entry is too old.
use sonicpeer.Base.{
  ℕ, ◌+◌, ◌-◌, ◌≤◌, ◌<◌, ◌≡◌, ◌≢◌, refl, sym, ap, ◌⊎◌, inl, inr, Bool, true, false, List, [], ◌∷◌,
  map, none, some, arith, if◌then◌else◌, ltb, ◌==◌, lookup, store, erase, Bool-cases, Option-cases,
  All, count, length, get_elem?, drop-get_elem?, Distinct, lookup-store, subst, lookup-erase,
  store-Distinct, erase-Distinct, All-lookup, lookup-All,
}
use sonicpeer.Topology.Largest.{Maximal, max_peers-Maximal, All-get_elem?}
use sonicpeer.Topology.{
  Entry, Advisor, is_old, increment, count_peers, count_entries, max_peers,
  get_redundant_peer_suggestion,
}

-- How often a map of counts has counted an id.
abbrev times : ℕ → List (ℕ × ℕ) → ℕ
times j count = elim (lookup j count) [ none ↦ 0 | some n ↦ n ]

abbrev found {ℓ} : {V : Type ℓ} → ℕ → List (ℕ × V) → Bool
found j m = elim (lookup j m) [ none ↦ false | some _ ↦ true ]

times-increment :
    (id j : ℕ) (c : List (ℕ × ℕ))
    → times j (increment id c) ≡ times j c + (if id == j then 1 else 0)
times-increment id j c = elim (Option-cases (lookup id c)) [
  | inl e ↦ ground (arith, lookup-store id j 1 c)
  | inr (n, e) ↦ ground (arith, lookup-store id j (n + 1) c)
]

increment-Distinct : (id : ℕ) (c : List (ℕ × ℕ)) → Distinct c → Distinct (increment id c)
increment-Distinct id c d = elim (Option-cases (lookup id c)) [
  | inl e ↦
      let p : increment id c ≡ store id 1 c = rw (e, increment) refl in
      subst Distinct (sym p) (store-Distinct id 1 c d)
  | inr (n, e) ↦
      let p : increment id c ≡ store id (n + 1) c = rw (e, increment) refl in
      subst Distinct (sym p) (store-Distinct id (n + 1) c d)
]

module _ {R : Type 0} (get_id : R → ℕ) where
  -- How many references to `j` the entries report.
  abbrev pub links : ℕ → List (ℕ × Entry R) → ℕ
  links j [] = 0
  links j ((k, entry) ∷ entries) = count j (map get_id entry.peers) + links j entries

  count_peers-times :
      (m : List (ℕ × Entry R)) (ps : List R) (c : List (ℕ × ℕ)) (j : ℕ)
      → times j (count_peers get_id m ps c)
        ≡ times j c + (if found j m then count j (map get_id ps) else 0)
  unfolding count_peers
  count_peers-times m [] c j = ground arith
  count_peers-times m (p ∷ ps) c j = elim (Option-cases (lookup (get_id p) m)) [
    | inl e ↦ rw e (ground (arith, count_peers-times m ps c j, e))
    | inr (x, e) ↦ rw e (
        ground (
          arith,
          count_peers-times m ps (increment (get_id p) c) j,
          times-increment (get_id p) j c,
          e,
        ))
  ]

  count_peers-Distinct :
      (m : List (ℕ × Entry R)) (ps : List R) (c : List (ℕ × ℕ))
      → Distinct c
      → Distinct (count_peers get_id m ps c)
  unfolding count_peers
  count_peers-Distinct m [] c d = d
  count_peers-Distinct m (p ∷ ps) c d = elim (Option-cases (lookup (get_id p) m)) [
    | inl e ↦ rw e (count_peers-Distinct m ps c d)
    | inr (x, e) ↦
        rw e
          (count_peers-Distinct m ps (increment (get_id p) c) (increment-Distinct (get_id p) c d))
  ]

  module _ (age now : ℕ) where
    -- No entry is too old at `now`.
    abbrev pub IsFresh : List (ℕ × Entry R) → Type 0
    IsFresh = All (λ x. now - x.1.time ≤ age)

    record Counted (entries m : List (ℕ × Entry R)) (c : List (ℕ × ℕ)) : Type 0 where
      counts : List (ℕ × ℕ)
      runs : count_entries get_id age now entries m c ≡ (m, counts)
      distinct : Distinct counts
      total : (j : ℕ) → times j counts ≡ times j c + (if found j m then links j entries else 0)

    count_entries-Counted :
        (entries m : List (ℕ × Entry R)) (c : List (ℕ × ℕ))
        → IsFresh entries
        → Distinct c
        → Counted entries m c
    unfolding count_entries
    count_entries-Counted [] m c fresh d = record {
      counts = c;
      runs = refl;
      distinct = d;
      total = λ j. ground arith;
    }
    count_entries-Counted ((k, entry) ∷ entries) m c fresh d =
        let young : is_old age now entry ≡ false = ground (arith, fresh.0) in
        let c' = count_peers get_id m entry.peers c in
        let r =
          count_entries-Counted entries m c' fresh.1 (count_peers-Distinct m entry.peers c d) in
        record {
          counts = r.counts;
          runs = rw young r.runs;
          distinct = r.distinct;
          total = λ j. ground (arith, r.total j, count_peers-times m entry.peers c j);
        }

module _ {R : Type 0} (get_id : R → ℕ) (rand : ℕ → ℕ) (now : ℕ) (c : Advisor R) where
  -- A peer of the node that might be dropped.
  abbrev pub IsNeighbor : ℕ → Type 0
  IsNeighbor j = (j ≢ c.local_id) × (lookup j c.neighborhood ≢ none)

  -- How many references the neighbours report to `j`.
  abbrev pub degree : ℕ → ℕ
  degree j = links get_id j c.neighborhood

  module _ (fresh : IsFresh get_id c.max_peer_info_age now c.neighborhood) where
    abbrev counted : Counted get_id c.max_peer_info_age now c.neighborhood c.neighborhood []
    counted =
        count_entries-Counted get_id c.max_peer_info_age now c.neighborhood c.neighborhood [] fresh
          tt

    abbrev tally : List (ℕ × ℕ)
    tally = erase c.local_id counted.counts

    times-tally :
        (j : ℕ)
        → times j tally
          ≡ (if c.local_id == j then 0 else if found j c.neighborhood then degree j else 0)
    times-tally j =
        ground (arith, lookup-erase c.local_id j counted.counts counted.distinct, counted.total j)

    abbrev best : ℕ × List ℕ
    best = max_peers tally 0 []

    best-Maximal : Maximal (λ x. lookup x.0 tally ≡ some x.1) tally 0 best
    best-Maximal =
        max_peers-Maximal (λ x. lookup x.0 tally ≡ some x.1) tally 0 []
          (All-lookup tally (erase-Distinct c.local_id counted.counts counted.distinct)) tt
          (λ z. absurd (omega arith)) (λ _. refl)

    degree-le-best : (j : ℕ) → IsNeighbor j → degree j ≤ best.0
    degree-le-best j near = elim (Option-cases (lookup j tally)) [
      | inl free ↦ ground (arith, free, times-tally j, near.0, near.1)
      | inr (n, there') ↦
          let bound = lookup-All (λ x. x.1 ≤ best.0) tally j n best-Maximal.above there' in
          ground (arith, bound, there', times-tally j, near.0, near.1)
    ]

    best-IsNeighbor :
        (j : ℕ) → 0 < best.0 → lookup j tally ≡ some best.0 → IsNeighbor j × (degree j ≡ best.0)
    best-IsNeighbor j pos e = ground (arith, e, times-tally j)

  -- Where no entry is too old, `GetRedundantPeerSuggestion` leaves the advisor as it is and suggests
  -- a neighbour, other than the node itself, to which the neighbours report the most references, and
  -- at least one; it suggests nobody only if no neighbour is reported at all.
  pub get_redundant_peer_suggestion-most :
      ((n : ℕ) → 0 < n → rand n < n)
      → IsFresh get_id c.max_peer_info_age now c.neighborhood
      → let r = get_redundant_peer_suggestion get_id rand now c in
        (r.0 ≡ c)
        × (((id : ℕ) × (r.1 ≡ some id)
              × IsNeighbor id
              × (0 < degree id)
              × ((j : ℕ) → IsNeighbor j → degree j ≤ degree id))
            ⊎ ((r.1 ≡ none) × ((j : ℕ) → IsNeighbor j → degree j ≡ 0)))
  unfolding get_redundant_peer_suggestion
  get_redundant_peer_suggestion-most drawn fresh =
      rw (counted fresh).runs (refl, chosen (Bool-cases (ltb 0 (best fresh).0)))
    where
      chosen :
          ((ltb 0 (best fresh).0 ≡ true) ⊎ (ltb 0 (best fresh).0 ≡ false))
          → let s = get_elem? (best fresh).1 (rand (length (best fresh).1)) in
            ((id : ℕ) × (s ≡ some id)
              × IsNeighbor id
              × (0 < degree id)
              × ((j : ℕ) → IsNeighbor j → degree j ≤ degree id))
            ⊎ ((s ≡ none) × ((j : ℕ) → IsNeighbor j → degree j ≡ 0))
      chosen (inl pos) =
          let b = best-Maximal fresh in
          let more : 0 < (best fresh).0 = ground (arith, pos) in
          let (x, at, _) =
            drop-get_elem? (best fresh).1 (rand (length (best fresh).1))
              (drawn (length (best fresh).1) (b.some_peer more)) in
          let (near, e) = best-IsNeighbor fresh x more (
            All-get_elem? (λ p. lookup p (tally fresh) ≡ some (best fresh).0) (best fresh).1 _ x
              b.have at) in
          inl
            (x, at, near, omega (arith, e, more), λ j h. omega (arith, e, degree-le-best fresh j h))
      chosen (inr zero') =
          let b = best-Maximal fresh in
          let none' : (best fresh).0 ≡ 0 = ground (arith, zero') in
          inr (
            ap (λ l. get_elem? l (rand (length l))) (b.nobody none'),
            λ j h. omega (arith, none', degree-le-best fresh j h),
          )
