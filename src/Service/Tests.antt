-- ===== src/Service/Tests.antt =====
-- Two transactions on their way to a subscriber, who then leaves.
use sonicpeer.Base.{
  ◌>>=◌, ◌⊎◌, arith, member, length, ℕ, ◌+◌, ◌≡◌, refl, true, false, List, [], ◌∷◌, ◌++◌, none,
  some, map,
}
use sonicpeer.Service.{
  Feed, new_feed, Event, hooked, pumped, notifies, run, happens, new_txs_hook, pump, notify,
}
use sonicpeer.Service.Ordered.{accepted, shown_all, run-accepted}
use sonicpeer.Env.Sample.{env, env-LruLaws, SampleTx}
use sonicpeer.Handler.{Handler}
use sonicpeer.Handler.Gossip.{handle_txs}
use sonicpeer.Handler.Gossip.Relayed.{offered}
use sonicpeer.Known.Sample.{full_cache-IsValid}
use sonicpeer.Peer.{Peer}
use sonicpeer.Peer.Sample.{sample_peer}
use sonicpeer.Service.Delivered.{idle, deliver}
use sonicpeer.Backend.{Block, answered, init, fetch_node_progress}
use sonicpeer.Config.{identity, default_config}
use sonicpeer.Env.Sample.{makers}
use sonicpeer.Handler.Creation.{new_handler, new_state}
use sonicpeer.Service.Creation.{
  Service, ServiceConfig, ServiceError, dns_failed, started, no_service, new_service, subscribe,
}
use sonicpeer.Service.Creation.Notified.{Fails, new_service-notifies}

abbrev hash_of : ℕ → ℕ
hash_of tx = tx + 100

abbrev events : List (Event ℕ)
events = hooked 1 ∷ pumped ∷ hooked 2 ∷ notifies false ∷ pumped ∷ []

abbrev after : Feed ℕ ℕ
after = record { tx_ch = []; sub_ch = 2 ∷ []; notified = 101 ∷ []; subscribed = true }

reached : run hash_of events (new_feed []) ≡ some after
unfolding run happens new_txs_hook pump notify
reached = refl

-- With nothing in the channel the goroutine of Start waits.
pumped_early : run hash_of (pumped ∷ []) (new_feed []) ≡ none
unfolding run happens pump
pumped_early = refl

-- After an error the subscription is over, and the channel of the service is still emptied.
left :
    run hash_of (notifies true ∷ hooked 3 ∷ pumped ∷ []) after
    ≡ some (record { tx_ch = []; sub_ch = []; notified = 101 ∷ []; subscribed = false })
unfolding run happens new_txs_hook pump notify
left = refl

run-accepted_example :
    (true ≡ true)
    × (shown_all hash_of after
        ≡ shown_all hash_of (new_feed []) ++ map hash_of (accepted hash_of events (new_feed [])))
run-accepted_example = run-accepted hash_of events (new_feed []) after reached refl

-- Three transactions of a peer
abbrev three_txs : List SampleTx
three_txs =
    record { hash = 40; size = 100; price = 5; signed = true }
    ∷ record { hash = 41; size = 100; price = 1; signed = true }
    ∷ record { hash = 42; size = 100; price = 3; signed = true }
    ∷ []

abbrev service_config : ServiceConfig env
service_config = record {
  network_id = 146;
  genesis = 77;
  local_id = 1;
  local_end_point = none;
  config = default_config env identity;
}

abbrev block : Block
block = record { number = some 100; epoch = 7; atropos = 3 }

refused_names :
    new_service makers service_config (some 4) none (answered block) ≡ no_service (dns_failed 4)
unfolding new_service
refused_names = refl

is_made :
    (s : Service env) × (new_service makers service_config none none (answered block) ≡ started s)
unfolding new_service new_handler new_state init fetch_node_progress
is_made = (_, refl)

new_service-notifies_example :
    ((err : ServiceError) × (new_service makers service_config none none (answered block)
        ≡ no_service err)
      × Fails makers service_config none none (answered block) err)
    ⊎ ((s : Service env) × (h : Handler env) × (p : Peer env) × (news : List SampleTx)
        × (new_service makers service_config none none (answered block) ≡ started s)
        × (handle_txs three_txs s.handler sample_peer ≡ some (h, p, news))
        × ((do f ← subscribe true s; run env.tx_hash (map hooked news ++ deliver (length news)) f)
            ≡ some (idle [] (map env.tx_hash news)))
        × ((x : ℕ)
            → member x (offered s.handler three_txs) ≡ true
            → member x s.handler.tx_hash_cache ≡ false
            → member x (map env.tx_hash news) ≡ true))
new_service-notifies_example =
    new_service-notifies makers env.tx_hash env-LruLaws service_config none none (answered block)
      three_txs sample_peer full_cache-IsValid (omega arith)
