-- ===== src/Handler/Aggressiveness/Tests.antt =====
-- The decision for a balanced tradeoff, and the theorems about it.
use mathlib.Core.Bool.{xor}
use sonicpeer.Base.{◌≤◌, ◌≡◌, refl, arith}
use sonicpeer.Base.Int64
use sonicpeer.Handler.Aggressiveness.{
  Tradeoff, sqrt, full_recipients, decide_broadcast_aggressiveness,
}
use sonicpeer.Handler.Aggressiveness.Bounds.{decide-falls}

abbrev balanced : Tradeoff
balanced = record { latency_importance = 1; throughput_importance = 1 }

abbrev for_latency : Tradeoff
for_latency = record { latency_importance = 100; throughput_importance = 0 }

-- A kilobyte after a second, a minute and an hour.
at_once : decide_broadcast_aggressiveness balanced 1000 50000000 50 ≡ 50
unfolding decide_broadcast_aggressiveness full_recipients Int64.le Int64.quotient Int64.mul xor
at_once = refl

to_some : decide_broadcast_aggressiveness balanced 1000 700000000 50 ≡ 7
unfolding decide_broadcast_aggressiveness full_recipients Int64.le Int64.quotient Int64.mul sqrt xor
to_some = refl

to_none : decide_broadcast_aggressiveness balanced 1000 3600000000000 50 ≡ 0
unfolding decide_broadcast_aggressiveness full_recipients Int64.le Int64.quotient Int64.mul xor
to_none = refl

-- The default configuration.
to_all : decide_broadcast_aggressiveness for_latency 1000 3600000000000 50 ≡ 50
unfolding decide_broadcast_aggressiveness full_recipients Int64.le
to_all = refl

decide-falls_example :
    (decide_broadcast_aggressiveness balanced 1000 3000000000 50
      ≤ decide_broadcast_aggressiveness balanced 1000 1000000000 50)
    × (decide_broadcast_aggressiveness balanced 1000 1000000000 50 ≤ 50)
unfolding Int64.quotient Int64.mul xor
decide-falls_example =
    decide-falls balanced 1000 1000000000 3000000000 50 (omega arith) (omega arith) (omega arith)
      (omega arith) (omega arith)
