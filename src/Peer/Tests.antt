-- ===== src/Peer/Tests.antt =====
-- The theorems about a peer, at a sample peer.
use mathlib.Core.List.{flatten}
use sonicpeer.Base.{take, length, ◌≡◌, refl, true, false, List, [], ◌∷◌, some, arith}
use sonicpeer.Env.Sample.{env, env-SemaphoreLaws, SampleTx}
use sonicpeer.Peer.{Peer}
use sonicpeer.Peer.Sample.{sample_peer}
use sonicpeer.Peer.Split.{split, Batches, split-Batches}
use sonicpeer.Peer.Traffic.{
  Event, send, async, acquires, selects, takes, writes, releases, quits, step, run, quiet,
}
use sonicpeer.Peer.Outbox.{
  mem_size, send_item, async_send_encoded_item, acquire_item, select_item, take_item,
}
use sonicpeer.Peer.Accounts.{Balanced, run-Accounted}

abbrev two_txs : List SampleTx
two_txs =
    record { hash = 40; size = 100; price = 5; signed = true }
    ∷ record { hash = 41; size = 3000000; price = 1; signed = false }
    ∷ []

split-Batches_example :
    (bs : List (List SampleTx)) × (split (λ t. t.size) two_txs ≡ some bs)
    × Batches (λ t. t.size) bs
    × (flatten bs ≡ two_txs)
split-Batches_example = split-Batches (λ t. t.size) two_txs

-- A peer whose queue has two places
abbrev short_peer : Peer env
short_peer = record sample_peer {
  queue_cap = 2;
  queued_data = record {
    used = record { num = 0; size = 0 };
    limit = record { num = 3; size = 4096 };
  };
}

-- Two items are queued, a third waits for a place, and the loop writes the first.
abbrev events : List Event
events =
    send (record { code = 2; raw = 1 ∷ 2 ∷ [] })
    ∷ async false (3 ∷ []) 3
    ∷ acquires (record { code = 2; raw = 4 ∷ [] })
    ∷ selects true 0
    ∷ takes
    ∷ selects true 0
    ∷ writes
    ∷ releases
    ∷ quits
    ∷ []

-- The loop has one item in its hands, and two are queued.
three_held : (run (take 6 events) (quiet short_peer)).peer.queued_data.used.num ≡ 3
unfolding run step send_item async_send_encoded_item acquire_item select_item take_item mem_size
three_held = refl

one_waited : length (run (take 4 events) (quiet short_peer)).blocked ≡ 1
unfolding run step send_item async_send_encoded_item acquire_item select_item mem_size
one_waited = refl

run-Accounted_example : Balanced env-SemaphoreLaws (run events (quiet short_peer))
unfolding env-SemaphoreLaws
run-Accounted_example =
    run-Accounted env-SemaphoreLaws events short_peer
      (record { items = refl; sizes = refl; room = omega arith })

-- The semaphore of this peer is used up.
abbrev busy_peer : Peer env
busy_peer = record sample_peer {
  queued_data = record {
    used = record { num = 2; size = 0 };
    limit = record { num = 2; size = 4096 };
  };
}
