-- ===== src/Topology/Suggested.antt =====
-- Whom GetNewPeerSuggestion suggests.
use sonicpeer.Base.{
  ℕ, ◌+◌, ◌-◌, ◌≤◌, ◌≡◌, ◌≢◌, refl, sym, ap, ◌∙◌, ◌⊎◌, inl, inr, false, List, [], ◌∷◌, Option, none,
  some, arith, if◌then◌else◌, ◌==◌, lookup, erase, Bool-cases, Option-cases, All, All-map, Any,
  here, there,
}
use sonicpeer.Topology.{Entry, Advisor, is_old, consider, scan, get_new_peer_suggestion}

pub lookup-erase-none {ℓ} :
    {V : Type ℓ} (j k : ℕ) (m : List (ℕ × V)) → lookup j m ≡ none → lookup j (erase k m) ≡ none
lookup-erase-none j k [] h = refl
lookup-erase-none j k ((i, v) ∷ m) h = ground (arith, lookup-erase-none j k m)

module _ {R : Type 0} (get_id : R → ℕ) (rand : ℕ → ℕ) (local_id age now : ℕ) where
  abbrev pub Fresh : Entry R → Type 0
  Fresh entry = now - entry.time ≤ age

  -- A reported peer that the node is not connected to, and is not the node.
  abbrev pub IsNew : List (ℕ × Entry R) → R → Type 0
  IsNew m p = (get_id p ≢ local_id) × (lookup (get_id p) m ≡ none)

  -- A fresh entry that reports `p`.
  abbrev pub Reports : R → ℕ × Entry R → Type 0
  Reports p (k, entry) = Fresh entry × Any (λ q. q ≡ p) entry.peers

  -- A candidate at the end that was not there at the start is one of the peers, and new.
  consider-IsNew :
      (m : List (ℕ × Entry R)) (ps : List R) (candidate : Option R) (count : ℕ)
      → ((consider get_id rand local_id m ps candidate count).0 ≡ candidate)
        ⊎ ((p : R) × ((consider get_id rand local_id m ps candidate count).0 ≡ some p)
            × Any (λ q. q ≡ p) ps
            × IsNew m p)
  unfolding consider
  consider-IsNew m [] candidate count = inl refl
  consider-IsNew m (p ∷ ps) candidate count = elim (Bool-cases (get_id p == local_id)) [
    | inl same ↦ rw same (later (consider-IsNew m ps candidate count))
    | inr other ↦ elim (Option-cases (lookup (get_id p) m)) [
      | inr (x, known) ↦ rw (other, known) (later (consider-IsNew m ps candidate count))
      | inl free ↦ elim (Bool-cases (rand (count + 1) == 0)) [
        | inr skipped ↦
            rw (other, free, skipped) (later (consider-IsNew m ps candidate (count + 1)))
        | inl picked ↦
            rw (other, free, picked)
              (chosen (ground arith) free (consider-IsNew m ps (some p) (count + 1)))
      ]
    ]
  ]
    where
      later :
          {r : Option R}
          → (r ≡ candidate) ⊎ ((q : R) × (r ≡ some q) × Any (λ x. x ≡ q) ps × IsNew m q)
          → (r ≡ candidate) ⊎ ((q : R) × (r ≡ some q) × Any (λ x. x ≡ q) (p ∷ ps) × IsNew m q)
      later (inl h) = inl h
      later (inr (q, h, a, n)) = inr (q, h, there p ps a, n)

      chosen :
          {r : Option R}
          → get_id p ≢ local_id
          → lookup (get_id p) m ≡ none
          → (r ≡ some p) ⊎ ((q : R) × (r ≡ some q) × Any (λ x. x ≡ q) ps × IsNew m q)
          → (r ≡ candidate) ⊎ ((q : R) × (r ≡ some q) × Any (λ x. x ≡ q) (p ∷ ps) × IsNew m q)
      chosen other free (inl h) = inr (p, h, here p ps refl, (other, free))
      chosen other free (inr (q, h, a, n)) = inr (q, h, there p ps a, n)

  scan-lookup :
      (entries m : List (ℕ × Entry R)) (candidate : Option R) (count j : ℕ)
      → lookup j m ≡ none
      → lookup j (scan get_id rand local_id age now entries m candidate count).0 ≡ none
  unfolding scan
  scan-lookup [] m candidate count j h = h
  scan-lookup ((k, entry) ∷ entries) m candidate count j h =
      elim (Bool-cases (is_old age now entry)) [
        | inl old ↦
            rw old (scan-lookup entries (erase k m) candidate count j (lookup-erase-none j k m h))
        | inr fresh ↦ rw fresh (scan-lookup entries m _ _ j h)
      ]

  scan-IsNew :
      (entries m : List (ℕ × Entry R)) (candidate : Option R) (count : ℕ)
      → let r = scan get_id rand local_id age now entries m candidate count in
        (r.1 ≡ candidate) ⊎ ((p : R) × (r.1 ≡ some p) × Any (Reports p) entries × IsNew r.0 p)
  unfolding scan
  scan-IsNew [] m candidate count = inl refl
  scan-IsNew ((k, entry) ∷ entries) m candidate count = elim (Bool-cases (is_old age now entry)) [
    | inl old ↦ rw old (later _ (scan-IsNew entries (erase k m) candidate count))
    | inr fresh ↦
        let c = consider get_id rand local_id m entry.peers candidate count in
        rw fresh (
          joined _ (ground arith) (scan-lookup entries m c.0 c.1)
            (consider-IsNew m entry.peers candidate count) (scan-IsNew entries m c.0 c.1))
  ]
    where
      later :
          (m' : List (ℕ × Entry R)) {r : Option R}
          → (r ≡ candidate) ⊎ ((q : R) × (r ≡ some q) × Any (Reports q) entries × IsNew m' q)
          → (r ≡ candidate)
            ⊎ ((q : R) × (r ≡ some q) × Any (Reports q) ((k, entry) ∷ entries) × IsNew m' q)
      later m' (inl h) = inl h
      later m' (inr (q, h, a, n)) = inr (q, h, there (k, entry) entries a, n)

      joined :
          (m' : List (ℕ × Entry R)) {c r : Option R}
          → Fresh entry
          → ((j : ℕ) → lookup j m ≡ none → lookup j m' ≡ none)
          → (c ≡ candidate) ⊎ ((q : R) × (c ≡ some q) × Any (λ x. x ≡ q) entry.peers × IsNew m q)
          → (r ≡ c) ⊎ ((q : R) × (r ≡ some q) × Any (Reports q) entries × IsNew m' q)
          → (r ≡ candidate)
            ⊎ ((q : R) × (r ≡ some q) × Any (Reports q) ((k, entry) ∷ entries) × IsNew m' q)
      joined m' fresh keeps (inl old) (inl h) = inl (h ∙ old)
      joined m' fresh keeps (inr (q, found, a, n)) (inl h) =
          inr (q, h ∙ found, here (k, entry) entries (fresh, a), (n.0, keeps (get_id q) n.1))
      joined m' fresh keeps o (inr (q, h, a, n)) = inr (q, h, there (k, entry) entries a, n)

  module _ (first : rand 1 ≡ 0) where
    -- While there is no candidate, none has been counted.
    consider-none :
        (m : List (ℕ × Entry R)) (ps : List R) (candidate : Option R) (count : ℕ)
        → (candidate ≡ none → count ≡ 0)
        → (consider get_id rand local_id m ps candidate count).0 ≡ none
        → (candidate ≡ none)
          × ((consider get_id rand local_id m ps candidate count).1 ≡ 0)
          × All (λ p. (get_id p ≡ local_id) ⊎ (lookup (get_id p) m ≢ none)) ps
    unfolding consider
    consider-none m [] candidate count z h = (h, z h, tt)
    consider-none m (p ∷ ps) candidate count z h = elim (Bool-cases (get_id p == local_id)) [
      | inl same ↦
          let (n, c, a) = consider-none m ps candidate count z (rw same at h) in
          (n, rw same c, (inl (ground arith), a))
      | inr other ↦ elim (Option-cases (lookup (get_id p) m)) [
        | inr (x, known) ↦
            let (n, c, a) = consider-none m ps candidate count z (rw (other, known) at h) in
            (n, rw (other, known) c, (inr (λ e. ground (arith, known, e)), a))
        | inl free ↦ absurd (
            picked
              (consider-none m ps (if rand (count + 1) == 0 then some p else candidate) (count + 1)
                (λ e. absurd (picked e)) (rw (other, free) at h)).0)
      ]
    ]
      where
        -- The first candidate is always taken.
        picked : ((if rand (count + 1) == 0 then some p else candidate) ≡ none) → ⊥
        picked e = elim (Bool-cases (rand (count + 1) == 0)) [
          | inl yes' ↦ ground (arith, e)
          | inr no' ↦
              let c : candidate ≡ none = ground (arith, e) in
              let n : count + 1 ≡ 1 = omega (arith, z c) in
              let one : (rand 1 == 0) ≡ false = ap (λ k. rand k == 0) (sym n) ∙ no' in
              ground (arith, first)
        ]

    scan-none :
        (entries m : List (ℕ × Entry R)) (candidate : Option R) (count : ℕ)
        → (candidate ≡ none → count ≡ 0)
        → (scan get_id rand local_id age now entries m candidate count).1 ≡ none
        → (candidate ≡ none)
          × All
              (λ x.
                Fresh x.1
                → All (λ p. (get_id p ≡ local_id) ⊎ (lookup (get_id p) m ≢ none)) x.1.peers)
              entries
    unfolding scan
    scan-none [] m candidate count z h = (h, tt)
    scan-none ((k, entry) ∷ entries) m candidate count z h =
        elim (Bool-cases (is_old age now entry)) [
          | inl old ↦
              let (n, a) = scan-none entries (erase k m) candidate count z (rw old at h) in
              (
                n,
                (
                  (λ fresh. absurd (ground arith)),
                  All-map entries (λ x f fresh. All-map x.1.peers (λ p. still p) (f fresh)) a,
                ),
              )
          | inr fresh ↦
              let c = consider get_id rand local_id m entry.peers candidate count in
              let (n', a) =
                scan-none entries m c.0 c.1
                  (λ e. (consider-none m entry.peers candidate count z e).1) (rw fresh at h) in
              let (n, _, b) = consider-none m entry.peers candidate count z n' in (n, ((λ _. b), a))
        ]
      where
        still :
            (p : R)
            → (get_id p ≡ local_id) ⊎ (lookup (get_id p) (erase k m) ≢ none)
            → (get_id p ≡ local_id) ⊎ (lookup (get_id p) m ≢ none)
        still p (inl same) = inl same
        still p (inr there') = inr (λ e. there' (lookup-erase-none (get_id p) k m e))

-- `GetNewPeerSuggestion` suggests a peer that a fresh entry reports, that is not the node and that has
-- no entry in the neighbourhood that the call leaves, which is without the stale entries that it has
-- met (a peer that is connected but whose own entry is stale may be suggested); and if it suggests nobody, then every peer that a fresh entry reports is
-- the node or stood in the neighbourhood when the call began.
pub get_new_peer_suggestion-IsNew :
    {R : Type 0} (get_id : R → ℕ) (rand : ℕ → ℕ) (now : ℕ) (c : Advisor R)
    → rand 1 ≡ 0
    → let r = get_new_peer_suggestion get_id rand now c in
      let fresh = Fresh get_id rand c.local_id c.max_peer_info_age now in
      ((p : R) × (r.1 ≡ some p)
        × Any (Reports get_id rand c.local_id c.max_peer_info_age now p) c.neighborhood
        × IsNew get_id rand c.local_id c.max_peer_info_age now r.0.neighborhood p)
      ⊎ ((r.1 ≡ none)
          × All
              (λ x.
                fresh x.1
                → All
                    (λ p. (get_id p ≡ c.local_id) ⊎ (lookup (get_id p) c.neighborhood ≢ none))
                    x.1.peers)
              c.neighborhood)
unfolding get_new_peer_suggestion
get_new_peer_suggestion-IsNew get_id rand now c first =
    elim (scan-IsNew get_id rand c.local_id c.max_peer_info_age now c.neighborhood c.neighborhood
      none 0) [
        | inr found ↦ inl found
        | inl nobody ↦ inr (
          nobody,
          (scan-none get_id rand c.local_id c.max_peer_info_age now first c.neighborhood
              c.neighborhood none 0 (λ _. refl) nobody).1,
        )
      ]
