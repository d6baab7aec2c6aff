-- ===== src/Handler/Creation/Tests.antt =====
-- Handlers for a backend that answers, and for one that does not.
use sonicpeer.Base.{◌≡◌, ◌⊎◌, refl, ◌≤◌, true, false, [], ◌∷◌, none, some, arith, length}
use sonicpeer.Backend.{Block, answered, failed, call_failed, init, fetch_node_progress}
use sonicpeer.Config.{identity, default_config, default_peer_cache_config, validate}
use sonicpeer.Env.Sample.{env, env-SemaphoreLaws, makers, makers-MakersLaws}
use sonicpeer.Handler.{Handler}
use sonicpeer.Handler.Creation.{
  HandlerConfig, CreationError, init_failed, made, no_handler, new_handler,
}
use sonicpeer.Handler.Creation.Ready.{Ready, Causes, new_handler-Ready}
use sonicpeer.Known.Fifo.{IsValid}
use sonicpeer.Peer.{Peer, BroadcastItem}
use sonicpeer.Peer.Accounts.{Accounted}
use sonicpeer.Peer.Fresh.{fresh_peer, queue_room, new_peer-Accounted}
use sonicpeer.Peer.Outbox.{send_item}

abbrev config : HandlerConfig env
config = record {
  network_id = 146;
  config = default_config env identity;
  genesis = 77;
  local_id = 1;
  local_end_point = none;
  has_new_txs_hook = true;
}

-- What launcher.go takes as its configuration is valid.
config_valid : validate env (default_config env identity) ≡ none
unfolding validate default_config
config_valid = refl

abbrev head : Block
head = record { number = some 100; epoch = 7; atropos = 3 }

unanswered : new_handler makers config none (failed 5) ≡ no_handler (init_failed (call_failed 5))
unfolding new_handler init fetch_node_progress
unanswered = refl

new_handler-Ready_example :
    ((h : Handler env) × (new_handler makers config none (answered head) ≡ made h) × Ready h)
    ⊎ ((x : CreationError) × (new_handler makers config none (answered head) ≡ no_handler x)
        × Causes makers none (answered head) x)
unfolding default_config
new_handler-Ready_example =
    new_handler-Ready makers makers-MakersLaws config none (answered head) config_valid
      (omega arith)

abbrev peer : Peer env
peer =
    fresh_peer makers (default_peer_cache_config env identity) 65 11 false true (65 ∷ [])
      (record { sent = []; broken = false })

new_peer-Accounted_example :
    IsValid peer.known_txs
    × IsValid peer.known_events
    × Accounted env-SemaphoreLaws peer
    × ((item : BroadcastItem)
        → length item.raw ≤ queue_room env identity
        → (send_item item peer).1 ≡ true)
new_peer-Accounted_example =
    new_peer-Accounted makers makers-MakersLaws identity 65 11 false true (65 ∷ [])
      (record { sent = []; broken = false }) (omega arith) (omega arith) peer refl
