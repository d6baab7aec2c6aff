-- ===== src/Sidecar/Tests.antt =====
-- Two announcements that meet, and one that goes stale.
use sonicpeer.Base.{◌+◌, ◌≡◌, refl, true, false, List, [], ◌∷◌, none, some, arith, lookup, Distinct}
use sonicpeer.Sidecar.{
  new_tracker, Call, arrival, beat, run, record_arrival, clean_up, heartbeat, add_counts, step,
}
use sonicpeer.Sidecar.Followed.{follow, run-follows}
use sonicpeer.Sidecar.Accounts.{total, openings, lost_of, run-total}

-- A second standard node announces the hash 7 after the pair.
abbrev calls : List Call
calls =
    arrival 7 true 100
    ∷ arrival 8 false 150
    ∷ arrival 7 false 400
    ∷ arrival 7 false 500
    ∷ beat 200000000000 (some 30) (some 20 ∷ none ∷ [])
    ∷ []

-- The hash 7 has been seen by both kinds of nodes, and is counted as an orphan of the standard nodes too.
all_counted : run calls new_tracker ≡ record new_tracker {
  deltas = record { sonic_first = true; by = 300 } ∷ [];
  standard_orphans = 2;
  sentry_peers = 30;
  standard_peers = 20;
}
unfolding run step record_arrival heartbeat clean_up add_counts
all_counted = refl

run-follows_example :
    Distinct (run calls new_tracker).seen
    × (lookup 7 (run calls new_tracker).seen ≡ follow 7 calls none)
run-follows_example = run-follows calls new_tracker 7 tt

run-total_example :
    (total (run calls new_tracker) ≡ 0 + openings calls new_tracker)
    × ((run calls new_tracker).sonic_orphans ≡ 0 + lost_of true calls new_tracker)
    × ((run calls new_tracker).standard_orphans ≡ 0 + lost_of false calls new_tracker)
run-total_example = run-total calls new_tracker tt (omega arith)
