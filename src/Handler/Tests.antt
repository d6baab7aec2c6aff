-- ===== src/Handler/Tests.antt =====
-- The theorems about the handler, at a sample handler and peer.
use mathlib.Core.List.{flatten}
use sonicpeer.Base.{ℕ, ◌≡◌, refl, true, false, List, [], ◌∷◌, map, some, none, arith, All, member}
use sonicpeer.Env.Sample.{env, env-LruLaws, SampleTx}
use sonicpeer.Known.{HashCache}
use sonicpeer.Known.Sample.{full_cache-IsValid}
use sonicpeer.Known.Fifo.{queue}
use sonicpeer.Protocol.{Error}
use sonicpeer.Protocol.Code
use sonicpeer.Peer.{disconnect}
use sonicpeer.Peer.Sample.{sample_peer}
use sonicpeer.Peer.Request.{send_each, IsSmall}
use sonicpeer.Handler.Sample.{sample_handler}
use sonicpeer.Handler.Staleness.{Report, check_reports, check_reports-grace}
use sonicpeer.Handler.Gossip.{handle_tx_hashes, handle_txs}
use sonicpeer.Handler.Gossip.Announced.{seen, handle_tx_hashes-unseen}
use sonicpeer.Handler.Gossip.Relayed.{taken, cache_after, IsAcceptable, handle_txs-taken}

abbrev report : ℕ → ℕ → Report
report epoch now = record { epoch = epoch; current = 7; now = now; later = now }

check_reports-grace_example :
    (check_reports 100 (report 7 0 ∷ report 6 1000 ∷ report 6 1100 ∷ []) sample_peer
      ≡ (record sample_peer { stale_since = some 1000 }, none))
    × (check_reports 100
          (report 7 0 ∷ report 6 1000 ∷ report 6 1100 ∷ report 5 1101 ∷ [])
          sample_peer
        ≡ (
          disconnect Error.disc_useless_peer (record sample_peer { stale_since = some 1000 }),
          some Error.un_synced_peer,
        ))
check_reports-grace_example =
    check_reports-grace 100 (report 7 0) (report 6 1000) (report 6 1100 ∷ []) (report 5 1101)
      sample_peer (omega arith) refl (λ h. omega (arith, h), omega arith)
      ((λ h. omega (arith, h), omega arith), tt) (λ h. omega (arith, h)) (omega arith)

handle_tx_hashes-unseen_example :
    (k : HashCache) × (batches : List (List ℕ)) × (handle_tx_hashes
        (40 ∷ 41 ∷ 41 ∷ [])
        sample_handler
        sample_peer
      ≡ some (
        record sample_handler { tx_hash_cache = seen env (40 ∷ []) (40 ∷ 41 ∷ 41 ∷ []) },
        record sample_peer {
          known_txs = k;
          conn = (send_each env Code.get_evm_txs batches sample_peer.conn).0;
        },
      ))
    × (queue k ≡ 7 ∷ 40 ∷ 41 ∷ [])
    × (flatten batches ≡ 41 ∷ [])
    × All (IsSmall env) batches
    × ((x : ℕ)
        → member x (40 ∷ 41 ∷ 41 ∷ []) ≡ true
        → member x (40 ∷ []) ≡ false
        → member x (flatten batches) ≡ true)
handle_tx_hashes-unseen_example =
    handle_tx_hashes-unseen env-LruLaws (40 ∷ 41 ∷ 41 ∷ []) sample_handler sample_peer
      full_cache-IsValid

abbrev three_txs : List SampleTx
three_txs =
    record { hash = 40; size = 100; price = 5; signed = true }
    ∷ record { hash = 41; size = 100; price = 1; signed = true }
    ∷ record { hash = 42; size = 100; price = 3; signed = true }
    ∷ []

handle_txs-taken_example :
    (k : HashCache) × (handle_txs three_txs sample_handler sample_peer
      ≡ some (
        record sample_handler { tx_hash_cache = cache_after sample_handler (40 ∷ []) three_txs },
        record sample_peer { known_txs = k },
        taken sample_handler (40 ∷ []) three_txs,
      ))
    × (queue k ≡ 40 ∷ 41 ∷ 42 ∷ [])
    × All (IsAcceptable sample_handler) (taken sample_handler (40 ∷ []) three_txs)
    × ((x : ℕ)
        → member x (40 ∷ 42 ∷ []) ≡ true
        → member x (40 ∷ []) ≡ false
        → member x (map env.tx_hash (taken sample_handler (40 ∷ []) three_txs)) ≡ true)
handle_txs-taken_example =
    handle_txs-taken sample_handler env-LruLaws three_txs sample_peer full_cache-IsValid
