-- ===== src/Sentry/Tests.antt =====
-- A sentry with two bootnodes and an empty address, in a long directory.
use sonicpeer.Base.{ℕ, zero, suc, ◌≡◌, refl, ◌⊎◌, List, [], ◌∷◌, none}
use sonicpeer.Sentry.{
  Text, NodeConfig, SentryError, invalid_bootnode, Action, creates, registers, ready, no_sentry,
  mapped, fix_ipc, configure, parse_bootnodes, new_sentry,
}
use sonicpeer.Sentry.Sample.{os, parse, default, cfg}
use sonicpeer.Sentry.Configured.{still_open, Configured, Causes, new_sentry-Configured}

repeat : ℕ → Text → Text
repeat zero text = text
repeat (suc n) text = 98 ∷ repeat n text

abbrev bootnodes : List Text
bootnodes = (4 ∷ []) ∷ [] ∷ (5 ∷ 6 ∷ []) ∷ []

invalid_refused :
    new_sentry os parse default [] none none (cfg ((4 ∷ []) ∷ (9 ∷ []) ∷ []) [])
    ≡ ([], no_sentry (invalid_bootnode (9 ∷ [])))
unfolding new_sentry parse_bootnodes
invalid_refused = refl

new_sentry-Configured_example :
    ((c : NodeConfig ℕ) × (new_sentry os parse default [] none none (cfg bootnodes [])
        ≡ (creates c ∷ registers ∷ [], ready c))
      × Configured parse os default [] (cfg bootnodes []) c)
    ⊎ ((x : SentryError) × (actions : List (Action ℕ)) × (new_sentry os parse default [] none none
            (cfg bootnodes [])
          ≡ (actions, no_sentry x))
        × (still_open actions 0 ≡ 0)
        × Causes parse os default [] (cfg bootnodes []) none none x)
new_sentry-Configured_example =
    new_sentry-Configured parse os default [] (cfg bootnodes []) none none

-- A sentry without a socket gets one in a directory of 200 letters.
relocated : (configure os default (cfg bootnodes (repeat 200 [])) []).ipc_path ≡ 47 ∷ 116 ∷ []
unfolding configure mapped fix_ipc repeat
relocated = refl
