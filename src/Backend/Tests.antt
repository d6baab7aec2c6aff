-- ===== src/Backend/Tests.antt =====
-- The loop of the backend client, at a client that has stored a block.
use sonicpeer.Base.{◌≡◌, refl, true, false, List, [], ◌∷◌, some}
use sonicpeer.Env.Sample.{env}
use sonicpeer.Backend.{
  Block, failed, answered, BackendClient, LoopEvent, new_head, stop, progress_of,
  node_progress_loop, progress_loop, fetch_node_progress,
}

abbrev block : Block
block = record { number = some 100; epoch = 7; atropos = 3 }

abbrev later_block : Block
later_block = record { number = some 101; epoch = 8; atropos = 4 }

abbrev known_client : BackendClient
known_client = record { progress = some (progress_of env block 100) }

abbrev events : List LoopEvent
events = new_head (failed 1) ∷ new_head (answered later_block) ∷ stop ∷ []

-- A fetch that fails is left out, and the loop takes its place off the wait group.
followed :
    node_progress_loop env true events (known_client, 2)
    ≡ ((record { progress = some (progress_of env later_block 101) }, true), 1)
unfolding node_progress_loop progress_loop fetch_node_progress progress_of
followed = refl

-- Without a subscription it does not.
unsubscribed : node_progress_loop env false events (known_client, 2) ≡ ((known_client, true), 2)
unfolding node_progress_loop
unsubscribed = refl
