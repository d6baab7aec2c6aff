-- ===== src/Topology.antt =====
-- pkg/gossip/topology/connection_advisor.go: what the peers of the node report as their own peers, and
-- whom to connect to or to drop. `R` is the type of the references to peers and `get_id` gives a
-- reference's id. A loop over a map visits its entries in the order of the list, which stands for any
-- order; `rand n` is the result of `rand.Intn(n)`, which a call draws once for each `n` at most.
pub mod Suggested
pub mod Redundant
pub mod Largest
mod Tests
use sonicpeer.Base.{
  ℕ, ◌+◌, ◌-◌, Bool, true, false, List, [], ◌∷◌, ◌++◌, Option, none, some, if◌then◌else◌, ltb, ◌==◌,
  ◌&&◌, lookup, store, erase, length, get_elem?, arith,
}

-- `neighborhoodEntry`
pub record Entry (R : Type 0) : Type 0 where
  pub peers : List R
  pub time : ℕ

-- `connectionAdvisor`
pub record Advisor (R : Type 0) : Type 0 where
  pub neighborhood : List (ℕ × Entry R)
  pub local_id : ℕ
  pub max_peer_info_age : ℕ

-- `newConnectionAdvisor`
unfoldable pub new_connection_advisor : {R : Type 0} → ℕ → ℕ → Advisor R
new_connection_advisor local_id max_peer_info_age = record {
  neighborhood = [];
  local_id = local_id;
  max_peer_info_age = max_peer_info_age;
}

-- `UpdatePeers`, at the time `now`
unfoldable pub update_peers : {R : Type 0} → ℕ → List R → ℕ → Advisor R → Advisor R
update_peers peer peers now c = record c {
  neighborhood = store peer (record { peers = peers; time = now }) c.neighborhood;
}

-- Whether an entry is too old at the time `now`.
abbrev pub is_old : {R : Type 0} → ℕ → ℕ → Entry R → Bool
is_old age now entry = ltb age (now - entry.time)

-- One more indirect connection, `count[id]++`
abbrev pub increment : ℕ → List (ℕ × ℕ) → List (ℕ × ℕ)
increment id count = elim (lookup id count) [
  | none ↦ store id 1 count
  | some n ↦ store id (n + 1) count
]

module _ {R : Type 0} (get_id : R → ℕ) where
  -- The inner loop of `GetNewPeerSuggestion`, over the peers that one entry reports, with the
  -- neighbourhood as it is then: the candidate, and the count of candidates so far.
  pub consider : (ℕ → ℕ) → ℕ → List (ℕ × Entry R) → List R → Option R → ℕ → Option R × ℕ
  consider rand local_id m [] candidate count = (candidate, count)
  consider rand local_id m (p ∷ ps) candidate count =
      if get_id p == local_id
      then consider rand local_id m ps candidate count
      else elim (lookup (get_id p) m) [
        | some _ ↦ consider rand local_id m ps candidate count
        | none ↦
            consider rand local_id m ps (if rand (count + 1) == 0 then some p else candidate)
              (count + 1)
      ]

  -- The outer loop: the neighbourhood afterwards and the candidate.
  pub scan :
      (ℕ → ℕ)
      → ℕ
      → ℕ
      → ℕ
      → List (ℕ × Entry R)
      → List (ℕ × Entry R)
      → Option R
      → ℕ
      → List (ℕ × Entry R) × Option R
  unfolding consider
  scan rand local_id age now [] m candidate count = (m, candidate)
  scan rand local_id age now ((k, entry) ∷ entries) m candidate count =
      if is_old age now entry
      then scan rand local_id age now entries (erase k m) candidate count
      else (let (candidate', count') = consider rand local_id m entry.peers candidate count in
          scan rand local_id age now entries m candidate' count')

  -- `GetNewPeerSuggestion`; no suggestion is the zero value.
  unfoldable pub get_new_peer_suggestion : (ℕ → ℕ) → ℕ → Advisor R → Advisor R × Option R
  unfolding scan
  get_new_peer_suggestion rand now c =
      let (m, candidate) =
        scan rand c.local_id c.max_peer_info_age now c.neighborhood c.neighborhood none 0 in
      (record c { neighborhood = m }, candidate)

  -- The loops of `GetRedundantPeerSuggestion` that count the indirect connections.
  pub count_peers : List (ℕ × Entry R) → List R → List (ℕ × ℕ) → List (ℕ × ℕ)
  count_peers m [] count = count
  count_peers m (p ∷ ps) count =
      count_peers m ps
        (elim (lookup (get_id p) m) [ none ↦ count | some _ ↦ increment (get_id p) count ])

  pub count_entries :
      ℕ
      → ℕ
      → List (ℕ × Entry R)
      → List (ℕ × Entry R)
      → List (ℕ × ℕ)
      → List (ℕ × Entry R) × List (ℕ × ℕ)
  unfolding count_peers
  count_entries age now [] m count = (m, count)
  count_entries age now ((k, entry) ∷ entries) m count =
      if is_old age now entry
      then count_entries age now entries (erase k m) count
      else count_entries age now entries m (count_peers m entry.peers count)

-- The loop that collects the peers with the largest count.
pub max_peers : List (ℕ × ℕ) → ℕ → List ℕ → ℕ × List ℕ
max_peers [] max_count peers = (max_count, peers)
max_peers ((peer, c) ∷ count) max_count peers =
    if ltb max_count c
    then max_peers count c (peer ∷ [])
    else if c == max_count && ltb 0 max_count
    then max_peers count max_count (peers ++ peer ∷ [])
    else max_peers count max_count peers

module _ {R : Type 0} (get_id : R → ℕ) where
  -- `GetRedundantPeerSuggestion`
  unfoldable pub get_redundant_peer_suggestion : (ℕ → ℕ) → ℕ → Advisor R → Advisor R × Option ℕ
  unfolding count_entries max_peers
  get_redundant_peer_suggestion rand now c =
      let (m, count) =
        count_entries get_id c.max_peer_info_age now c.neighborhood c.neighborhood [] in
      let peers = (max_peers (erase c.local_id count) 0 []).1 in
      (record c { neighborhood = m }, get_elem? peers (rand (length peers)))
