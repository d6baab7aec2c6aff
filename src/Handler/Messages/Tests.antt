-- ===== src/Handler/Messages/Tests.antt =====
-- The theorems about `handleMsg`, and messages of the main kinds.
use sonicpeer.Base.{◌≤◌, All, length, none, ◌≡◌, refl, List, [], ◌∷◌, Option, some, arith, inl}
use sonicpeer.Env.{Read, Metric, received}
use sonicpeer.Env.Sample.{env, env-SemaphoreLaws, SampleTx, hashes}
use sonicpeer.Known.Fifo.{IsValid}
use sonicpeer.Known.Sample.{full_cache-IsValid}
use sonicpeer.Protocol.{Error}
use sonicpeer.Protocol.Code
use sonicpeer.Peer.{Peer}
use sonicpeer.Peer.Sample.{sample_peer}
use sonicpeer.Handler.{Handler}
use sonicpeer.Handler.Sample.{sample_handler}
use sonicpeer.Handler.Messages.{handle_msg}
use sonicpeer.Handler.Messages.Released.{SameHeld, handle_msg-SameHeld}
use sonicpeer.Config.{Config, identity, default_config, validate}
use sonicpeer.Env.Sample.{makers, makers-MakersLaws, makers-LimitLaws}
use sonicpeer.Handler.Messages.InFlight.{total, Turn, Shared, enters, leaves, turn, run, idle}
use sonicpeer.Handler.Messages.InFlight.Bounded.{run-InFlight, enters-granted}

abbrev announcement : Read env
announcement = received Code.new_evm_tx_hashes 100 (hashes (40 ∷ 41 ∷ []))

handle_msg-SameHeld_example :
    (h' : Handler env) × (p' : Peer env) × (hooked : List SampleTx) × (err : Option Error)
    × (handle_msg 5 6 announcement sample_handler sample_peer ≡ some (h', p', hooked, err))
    × SameHeld env-SemaphoreLaws h'.msg_semaphore sample_handler.msg_semaphore
    × IsValid p'.known_txs
    × (h'.peers ≡ sample_handler.peers)
    × (p'.id ≡ 11)
handle_msg-SameHeld_example =
    handle_msg-SameHeld env-SemaphoreLaws 5 6 announcement sample_handler sample_peer
      full_cache-IsValid

abbrev semaphore_limit : Metric
semaphore_limit = record { num = 2; size = 400 }

-- Three messages come to a semaphore that admits two, and one of the two returns.
abbrev three_turns : List Turn
three_turns = enters 100 ∷ enters 200 ∷ enters 50 ∷ leaves 1 ∷ enters 60 ∷ []

three_run : (run env three_turns (idle makers semaphore_limit)).in_flight ≡ 60 ∷ 200 ∷ []
unfolding run turn
three_run = refl

run-InFlight_example :
    let s = run env three_turns (idle makers semaphore_limit) in
    let held = env-SemaphoreLaws.held s.semaphore in
    (held.num ≤ 2)
    × (held.size ≤ 400)
    × (held.num ≤ length s.in_flight)
    × (held.size ≤ total s.in_flight)
    × All (λ size. size ≤ env.max_msg_size) s.in_flight
run-InFlight_example =
    run-InFlight makers makers-LimitLaws makers-MakersLaws semaphore_limit three_turns

abbrev config : Config
config = default_config env identity

config_valid : validate env config ≡ none
unfolding validate default_config
config_valid = refl

abbrev calm : Shared env
calm = run env (enters 100 ∷ leaves 0 ∷ []) (idle makers config.protocol.msgs_semaphore_limit)

calm_empty : calm.in_flight ≡ []
unfolding run turn default_config
calm_empty = refl

enters-granted_example : (turn env (enters 1000) calm).in_flight ≡ 1000 ∷ calm.in_flight
unfolding default_config
enters-granted_example =
    enters-granted makers makers-LimitLaws makers-MakersLaws config (enters 100 ∷ leaves 0 ∷ [])
      1000 config_valid (omega arith) (omega arith) (inl calm_empty)
