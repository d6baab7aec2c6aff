-- ===== src/Handler/Dialing/Drained.antt =====
-- That the dialer is given every node in the end, if it goes on to ask.
use mathlib.Core.List.{append_assoc, append-nil}
use sonicpeer.Base.{
  ◌≡◌, refl, sym, ap, ◌∙◌, inl, inr, List, [], ◌∷◌, ◌++◌, Option, some, arith, Option-cases,
  some-injective,
}
use sonicpeer.Handler.Dialing.{
  Dialing, Event, loads, advances, new_dialing, load_next, advance, happens, run,
}
use sonicpeer.Handler.Dialing.Ordered.{accepted, Ordered, run-Ordered}

module _ {N : Type 0} where
  -- The dialer empties the channel, and then takes each node that the goroutine sends.
  abbrev pub advances_all : List N → List (Event N)
  advances_all [] = []
  advances_all (n ∷ q) = advances ∷ advances_all q

  abbrev pub loads_all : List N → List (Event N)
  loads_all [] = []
  loads_all (n ∷ l) = loads ∷ advances ∷ loads_all l

  -- The node that the iterator stands at after those
  abbrev last_of : List N → Option N → Option N
  last_of [] next = next
  last_of (n ∷ l) next = last_of l (some n)

  advance_all :
      (q : List N) (d : Dialing N) (next : Option N) (given : List N)
      → run (advances_all q) (record d { queue = q; next = next; given = given })
        ≡ some (record d { queue = []; next = last_of q next; given = given ++ q })
  unfolding run happens advance
  advance_all [] d next given =
      ap (λ g. some (record d { queue = []; next = next; given = g })) (sym (append-nil given))
  advance_all (n ∷ q) d next given =
      advance_all q d (some n) (given ++ n ∷ [])
      ∙ ap (λ g. some (record d { queue = []; next = last_of q (some n); given = g }))
          (append_assoc given (n ∷ []) q)

  load_all :
      (l : List N) (d : Dialing N) (next : Option N) (given : List N)
      → run (loads_all l) (record d { queue = []; loading = l; next = next; given = given })
        ≡ some (record d { queue = []; loading = []; next = last_of l next; given = given ++ l })
  unfolding run happens advance load_next
  load_all [] d next given =
      ap (λ g. some (record d { queue = []; loading = []; next = next; given = g }))
        (sym (append-nil given))
  load_all (n ∷ l) d next given =
      load_all l d (some n) (given ++ n ∷ [])
      ∙ ap (λ g. some (record d { queue = []; loading = []; next = last_of l (some n); given = g }))
          (append_assoc given (n ∷ []) l)

  run-append :
      (events later : List (Event N)) (d d' : Dialing N)
      → run events d ≡ some d'
      → run (events ++ later) d ≡ run later d'
  unfolding run
  run-append [] later d d' h = ap (run later) (some-injective h)
  run-append (x ∷ events) later d d' h = elim (Option-cases (happens x d)) [
    | inl stuck ↦ absurd (ground (arith, rw stuck at h))
    | inr (d1, ran) ↦ rw ran (run-append events later d1 d' (rw ran at h))
  ]

  -- Whatever has happened in a state, the dialer can still be given all that waits.
  pub record Drains (d : Dialing N) : Type 0 where
    pub events : List (Event N)
    pub drained : Dialing N
    pub runs : run events d ≡ some drained
    pub all_given : drained.given ≡ d.given ++ d.queue ++ d.loading
    pub empty_queue : drained.queue ≡ []
    pub all_loaded : drained.loading ≡ []

  drain : (d : Dialing N) → Drains d
  drain d = record {
    events = advances_all d.queue ++ loads_all d.loading;
    drained = record d {
      queue = [];
      loading = [];
      next = last_of d.loading (last_of d.queue d.next);
      given = d.given ++ d.queue ++ d.loading;
    };
    runs =
        run-append (advances_all d.queue) (loads_all d.loading) d
          (record d { queue = []; next = last_of d.queue d.next; given = d.given ++ d.queue })
          (advance_all d.queue d d.next d.given)
        ∙ load_all d.loading d (last_of d.queue d.next) (d.given ++ d.queue);
    all_given = refl;
    empty_queue = refl;
    all_loaded = refl;
  }

  -- However the ticks, the goroutine of loadPeers, the dialer and the end of the handler interleave:
  -- the channel keeps within its capacity, and what the dialer has been given, with what waits in
  -- the channel, is made of the suggestions for which there was room and of a first part of the
  -- nodes of the file, each once and in its order. The rest of the file is what the goroutine still
  -- has to send, unless it has given up since the handler quits; and some further steps of the
  -- dialer and of the goroutine give the dialer all that waits, in order.
  pub run-Drains :
      (nodes : List N) (events : List (Event N)) (d : Dialing N)
      → run events (new_dialing nodes) ≡ some d
      → Ordered nodes (accepted events (new_dialing nodes)) d × Drains d
  run-Drains nodes events d h = (run-Ordered nodes events d h, drain d)
