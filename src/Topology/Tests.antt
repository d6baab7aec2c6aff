-- ===== src/Topology/Tests.antt =====
-- The theorems about the advisor, at a small neighbourhood: the node is 1, and its peers 2 and 3 have
-- reported their own peers.
use sonicpeer.Base.{
  ℕ, ◌-◌, ◌≤◌, ◌<◌, ◌≡◌, ◌≢◌, refl, ◌⊎◌, [], ◌∷◌, none, some, arith, All, Any, lookup,
}
use sonicpeer.Topology.{
  Advisor, new_connection_advisor, update_peers, get_new_peer_suggestion,
  get_redundant_peer_suggestion,
}
use sonicpeer.Topology.Suggested.{Fresh, IsNew, Reports, get_new_peer_suggestion-IsNew}
use sonicpeer.Topology.Redundant.{IsNeighbor, degree, get_redundant_peer_suggestion-most}

abbrev ids : ℕ → ℕ
ids n = n

-- `rand.Intn` that always draws 0.
abbrev lowest : ℕ → ℕ
lowest n = 0

abbrev advisor : Advisor ℕ
advisor = record {
  neighborhood =
      (2, record { peers = 1 ∷ 3 ∷ 4 ∷ []; time = 50 })
      ∷ (3, record { peers = 1 ∷ 2 ∷ 5 ∷ []; time = 90 })
      ∷ (4, record { peers = 3 ∷ []; time = 95 })
      ∷ [];
  local_id = 1;
  max_peer_info_age = 60;
}

-- Peer 5 is the one that the node lacks; peer 3 is reported twice.
suggests_five : (get_new_peer_suggestion ids lowest 100 advisor).1 ≡ some 5
unfolding get_new_peer_suggestion
suggests_five = refl

drops_three : (get_redundant_peer_suggestion ids lowest 100 advisor).1 ≡ some 3
unfolding get_redundant_peer_suggestion
drops_three = refl

-- `rand.Intn` that always draws the largest.
abbrev highest : ℕ → ℕ
highest n = n - 1

-- After 110 the entry of peer 2 is too old, and the node may connect to it again.
suggests_two : (get_new_peer_suggestion ids highest 115 advisor).1 ≡ some 2
unfolding get_new_peer_suggestion
suggests_two = refl

updated : update_peers {R = ℕ} 2 (7 ∷ []) 10 (new_connection_advisor 1 60) ≡ record {
  neighborhood = (2, record { peers = 7 ∷ []; time = 10 }) ∷ [];
  local_id = 1;
  max_peer_info_age = 60;
}
unfolding update_peers new_connection_advisor
updated = refl

get_new_peer_suggestion-IsNew_example :
    let r = get_new_peer_suggestion ids lowest 100 advisor in
    ((p : ℕ) × (r.1 ≡ some p)
      × Any (Reports ids lowest 1 60 100 p) advisor.neighborhood
      × IsNew ids lowest 1 60 100 r.0.neighborhood p)
    ⊎ ((r.1 ≡ none)
        × All
            (λ x.
              Fresh ids lowest 1 60 100 x.1
              → All (λ p. (p ≡ 1) ⊎ (lookup p advisor.neighborhood ≢ none)) x.1.peers)
            advisor.neighborhood)
get_new_peer_suggestion-IsNew_example = get_new_peer_suggestion-IsNew ids lowest 100 advisor refl

get_redundant_peer_suggestion-most_example :
    let r = get_redundant_peer_suggestion ids lowest 100 advisor in
    (r.0 ≡ advisor)
    × (((id : ℕ) × (r.1 ≡ some id)
          × IsNeighbor ids lowest 100 advisor id
          × (0 < degree ids lowest 100 advisor id)
          × ((j : ℕ)
              → IsNeighbor ids lowest 100 advisor j
              → degree ids lowest 100 advisor j ≤ degree ids lowest 100 advisor id))
        ⊎ ((r.1 ≡ none)
            × ((j : ℕ)
                → IsNeighbor ids lowest 100 advisor j
                → degree ids lowest 100 advisor j ≡ 0)))
get_redundant_peer_suggestion-most_example =
    get_redundant_peer_suggestion-most ids lowest 100 advisor (λ n h. h) (omega arith)
