-- ===== src/Lifecycle/Tests.antt =====
-- A node that starts, is called for one connection, and stops while that call stands between its test of
-- `quitSync` and its `wg.Add`.
use sonicpeer.Base.{◌≡◌, ◌≢◌, refl, true, [], ◌∷◌, arith, length, All}
use sonicpeer.Lifecycle.{
  subscribing, running, ended, lost, admitted, handling, registered, dropped, disconnected, up,
  stopping, stopped, Node, new_node, Step, Reach, here, next,
}
use sonicpeer.Lifecycle.Counting.{over_loops}
use sonicpeer.Lifecycle.Stopped.{stopped-ended, lost-waits}
use sonicpeer.Lifecycle.Stops.{Settles, stops-return}

abbrev up_node : Node
up_node = record new_node {
  phase = up;
  loops = running ∷ running ∷ subscribing ∷ running ∷ [];
  loops_wg = 4;
  started = true;
}

up_reached : Reach new_node up_node
up_reached =
    next
      (next
        (next
          (next (next here (Step.spawns 0 refl (omega arith))) (Step.spawns 1 refl (omega arith)))
          (Step.spawns 2 refl (omega arith)))
        (Step.spawns 3 refl (omega arith)))
      (Step.starts refl)

-- A connection, and a call of Stop.
abbrev stopping_node : Node
stopping_node = record up_node {
  phase = stopping 4;
  loops = running ∷ running ∷ running ∷ running ∷ [];
  sessions = admitted ∷ [];
}

stopping_reached : Reach new_node stopping_node
stopping_reached =
    let connected =
      next (next (next up_reached (Step.subscribes 2 refl)) Step.arrives)
        (Step.admits 0 refl refl refl) in
    let stops = next connected (Step.stops refl) in
    next
      (next
        (next (next stops (Step.closes_stop 0 refl (omega arith)))
          (Step.closes_stop 1 refl (omega arith)))
        (Step.closes_stop 2 refl (omega arith)))
      (Step.closes_stop 3 refl (omega arith))

abbrev stopped_node : Node
stopped_node = record stopping_node {
  phase = stopped;
  loops = ended ∷ ended ∷ ended ∷ ended ∷ [];
  loops_wg = 0;
  quit_sync = true;
  peers_closed = true;
}

stopped_reached : Reach new_node stopped_node
stopped_reached =
    let loops =
      next
        (next
          (next (next stopping_reached (Step.ends 0 refl (omega arith)))
            (Step.ends 1 refl (omega arith)))
          (Step.ends 2 refl (omega arith)))
        (Step.ends 3 refl (omega arith)) in
    next
      (next (next (next loops (Step.waits_loops refl refl)) (Step.quits refl))
        (Step.closes_peers refl))
      (Step.waits_sessions refl refl)

-- Stop has returned, and the call enters `handle` after that.
abbrev late_node : Node
late_node = record stopped_node { sessions = handling ∷ []; wg = 1 }

late_reached : Reach stopped_node late_node
late_reached = next here (Step.counts 0 refl)

stopped-ended_example :
    (length late_node.loops ≡ 4)
    × All (λ l. l ≡ ended) late_node.loops
    × All (λ x. (x ≢ registered) × (x ≢ dropped)) late_node.sessions
stopped-ended_example = stopped-ended stopped_reached refl late_reached

-- A connection is registered, and Stop has disconnected it and waits for its session.
abbrev cut_node : Node
cut_node = record stopped_node { phase = disconnected; sessions = dropped ∷ []; wg = 1 }

cut_reached : Reach new_node cut_node
cut_reached =
    let inside =
      next
        (next
          (next
            (next (next (next up_reached (Step.subscribes 2 refl)) Step.arrives)
              (Step.admits 0 refl refl refl))
            (Step.counts 0 refl))
          (Step.shakes 0 refl))
        (Step.registers 0 refl refl) in
    let told =
      next
        (next
          (next (next (next inside (Step.stops refl)) (Step.closes_stop 0 refl (omega arith)))
            (Step.closes_stop 1 refl (omega arith)))
          (Step.closes_stop 2 refl (omega arith)))
        (Step.closes_stop 3 refl (omega arith)) in
    let loops =
      next
        (next (next (next told (Step.ends 0 refl (omega arith))) (Step.ends 1 refl (omega arith)))
          (Step.ends 2 refl (omega arith)))
        (Step.ends 3 refl (omega arith)) in
    next (next (next loops (Step.waits_loops refl refl)) (Step.quits refl)) (Step.closes_peers refl)

stops-return_example : (u : Node) × Settles cut_node u × (u.phase ≡ stopped)
stops-return_example = stops-return cut_reached refl (ground arith)

abbrev lost_node : Node
lost_node = record up_node { loops = running ∷ running ∷ lost ∷ running ∷ [] }

lost_reached : Reach new_node lost_node
lost_reached = next up_reached (Step.fails 2 refl)

abbrev stopping_lost : Node
stopping_lost = record lost_node { phase = stopping 0 }

lost_stops : Reach lost_node stopping_lost
lost_stops = next here (Step.stops refl)

lost-waits_example : over_loops stopping_lost.phase ≢ true
lost-waits_example = lost-waits 2 lost_reached refl lost_stops
