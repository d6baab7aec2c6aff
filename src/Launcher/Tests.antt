-- ===== src/Launcher/Tests.antt =====
-- Two addresses with a space and an empty one between them, and eleven interrupts.
use sonicpeer.Base.{ℕ, ◌≡◌, refl, true, false, List, [], ◌∷◌, none, arith}
use sonicpeer.Launcher.{
  split, split_and_trim, Wake, signalled, stop_asked, waiting, wakes, shut_down,
}
use sonicpeer.Launcher.Split.{join, new_sentry-join}
use sonicpeer.Sentry.{NodeConfig, creates, registers, ready, new_sentry}
use sonicpeer.Sentry.Sample.{os, parse, default, cfg}

-- "4, ,5"
trimmed : split_and_trim (52 ∷ 44 ∷ 32 ∷ 44 ∷ 53 ∷ 32 ∷ []) ≡ (52 ∷ []) ∷ [] ∷ (53 ∷ []) ∷ []
unfolding split_and_trim split
trimmed = refl

abbrev interrupts : List Wake
interrupts =
    signalled ∷ signalled ∷ signalled ∷ signalled ∷ signalled ∷ signalled ∷ signalled ∷ signalled
    ∷ signalled ∷ []

-- After the first wake-up it takes ten signals to exit.
patient : (shut_down (stop_asked ∷ interrupts) waiting).exited ≡ false
unfolding shut_down wakes
patient = refl

exits : (shut_down (stop_asked ∷ signalled ∷ interrupts) waiting).exited ≡ true
unfolding shut_down wakes
exits = refl

new_sentry-join_example :
    (c : NodeConfig ℕ) × (new_sentry os parse default [] none none (record (cfg [] []) {
      bootnodes = split_and_trim (join ((52 ∷ []) ∷ (32 ∷ []) ∷ (53 ∷ 32 ∷ []) ∷ []));
    })
      ≡ (creates c ∷ registers ∷ [], ready c))
    × (c.bootstrap_nodes ≡ 52 ∷ 53 ∷ [])
unfolding join
new_sentry-join_example =
    new_sentry-join parse os default [] (cfg [] []) (52 ∷ []) ((32 ∷ []) ∷ (53 ∷ 32 ∷ []) ∷ [])
      (52 ∷ 53 ∷ []) (refl, (refl, (refl, tt))) (λ h. ground (arith, h)) refl
