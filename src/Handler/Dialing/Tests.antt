-- ===== src/Handler/Dialing/Tests.antt =====
-- Two nodes of the file, and a suggestion between them.
use sonicpeer.Base.{ℕ, ◌≡◌, refl, true, List, [], ◌∷◌, none, some}
use sonicpeer.Handler.Dialing.{
  Dialing, Event, suggests, loads, quitting, gives_up, advances, ends, closing, new_dialing,
  happens, run,
}
use sonicpeer.Handler.Dialing.Ordered.{accepted, Ordered}
use sonicpeer.Handler.Dialing.Drained.{Drains, run-Drains}

abbrev events : List (Event ℕ)
events = loads ∷ suggests 7 ∷ advances ∷ loads ∷ quitting ∷ closing ∷ advances ∷ []

abbrev after : Dialing ℕ
after = record (new_dialing []) {
  queue = 2 ∷ [];
  loading = [];
  quits = true;
  next = some 7;
  closed = true;
  given = 1 ∷ 7 ∷ [];
}

reached : run events (new_dialing (1 ∷ 2 ∷ [])) ≡ some after
unfolding run happens
reached = refl

-- `Next` waits while there is no node, and does not return false before the iterator is closed.
waits : run {N = ℕ} (advances ∷ []) (new_dialing (1 ∷ [])) ≡ none
unfolding run happens
waits = refl

stays : run {N = ℕ} (ends ∷ []) (new_dialing (1 ∷ [])) ≡ none
unfolding run happens
stays = refl

gives_up_late : run {N = ℕ} (gives_up ∷ []) (new_dialing (1 ∷ [])) ≡ none
unfolding run happens
gives_up_late = refl

run-Drains_example :
    Ordered (1 ∷ 2 ∷ []) (accepted events (new_dialing (1 ∷ 2 ∷ []))) after × Drains after
run-Drains_example = run-Drains (1 ∷ 2 ∷ []) events after reached
