-- ===== src/Topology/Largest.antt =====
-- The loop of GetRedundantPeerSuggestion that collects the peers with the largest count.
use sonicpeer.Base.{
  ℕ, zero, suc, ◌≤◌, ◌<◌, ◌≡◌, inl, inr, List, [], ◌∷◌, ◌++◌, some, arith, ltb, ◌==◌, Bool-cases,
  All, count, length, length-append, get_elem?, subst, ◌&&◌,
}
use sonicpeer.Topology.{max_peers}

-- What the loop over the counts keeps, for any property that the counts have.
module _ (P : ℕ × ℕ → Type 0) where
  pub record Maximal (count : List (ℕ × ℕ)) (m : ℕ) (r : ℕ × List ℕ) : Type 0 where
    pub above : All (λ x. x.1 ≤ r.0) count
    pub at_least : m ≤ r.0
    pub have : All (λ p. P (p, r.0)) r.1
    pub some_peer : 0 < r.0 → 0 < length r.1
    pub nobody : r.0 ≡ 0 → r.1 ≡ []

  All-snoc :
      (n : ℕ) (ps : List ℕ) (p : ℕ)
      → All (λ q. P (q, n)) ps
      → P (p, n)
      → All (λ q. P (q, n)) (ps ++ p ∷ [])
  All-snoc n [] p all h = (h, tt)
  All-snoc n (q ∷ ps) p all h = (all.0, All-snoc n ps p all.1 h)

  pub max_peers-Maximal :
      (count : List (ℕ × ℕ)) (m : ℕ) (ps : List ℕ)
      → All P count
      → All (λ p. P (p, m)) ps
      → (0 < m → 0 < length ps)
      → (m ≡ 0 → ps ≡ [])
      → Maximal count m (max_peers count m ps)
  unfolding max_peers
  max_peers-Maximal [] m ps all have pos none' = record {
    above = tt;
    at_least = omega arith;
    have = have;
    some_peer = pos;
    nobody = none';
  }
  max_peers-Maximal ((k, n) ∷ count) m ps all have pos none' = elim (Bool-cases (ltb m n)) [
    | inl more ↦
        let r =
          max_peers-Maximal count n (k ∷ []) all.1 (all.0, tt) (λ _. omega arith)
            (λ z. absurd (ground (arith, z, more))) in
        rw more (record {
          above = (r.at_least, r.above);
          at_least = ground (arith, r.at_least, more);
          have = r.have;
          some_peer = r.some_peer;
          nobody = r.nobody;
        })
    | inr less ↦ elim (Bool-cases (n == m && ltb 0 m)) [
      | inl tie ↦
          let same : n ≡ m = ground (arith, tie) in
          let r =
            max_peers-Maximal count m (ps ++ k ∷ []) all.1
              (All-snoc m ps k have (subst P (λ i. (k, same i)) all.0))
              (λ _. omega (arith, length-append {0} ps (k ∷ [])))
              (λ z. absurd (ground (arith, z, tie))) in
          rw less (
            rw tie (record {
              above = (omega (arith, same, r.at_least), r.above);
              at_least = r.at_least;
              have = r.have;
              some_peer = r.some_peer;
              nobody = r.nobody;
            }))
      | inr behind ↦
          let r = max_peers-Maximal count m ps all.1 have pos none' in
          rw less (
            rw behind (record {
              above = (ground (arith, r.at_least, less), r.above);
              at_least = r.at_least;
              have = r.have;
              some_peer = r.some_peer;
              nobody = r.nobody;
            }))
    ]
  ]

pub All-get_elem? :
    (P : ℕ → Type 0) (ps : List ℕ) (i x : ℕ) → All P ps → get_elem? ps i ≡ some x → P x
All-get_elem? P [] i x all h = absurd (ground (arith, h))
All-get_elem? P (p ∷ ps) zero x all h = let e : p ≡ x = ground (arith, h) in subst P e all.0
All-get_elem? P (p ∷ ps) (suc i) x all h = All-get_elem? P ps i x all.1 h
