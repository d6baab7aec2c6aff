-- ===== src/Handler/Aggressiveness.antt =====
-- pkg/gossip/handler.go: decideBroadcastAggressiveness, which chooses how many peers get a whole message
-- and not its hash alone. The importances, the size and the time that has passed are 64-bit integers
-- (Base.Int64); times are in nanoseconds.
pub mod Bounds
mod Tests
use sonicpeer.Base.{ℕ, zero, suc, ◌+◌, ◌*◌, ◌%◌, ◌^◌, Bool, ◌||◌, if◌then◌else◌, ltb, leb, ◌==◌}
use sonicpeer.Base.Int64

-- The part of the configuration that the decision reads.
pub record Tradeoff : Type 0 where
  pub latency_importance : ℕ
  pub throughput_importance : ℕ

-- `int(math.Sqrt(float64(n)))`, for the numbers that a float64 holds exactly
unfoldable pub sqrt : ℕ → ℕ
sqrt zero = 0
sqrt (suc n) = let r = sqrt n in if leb ((r + 1) * (r + 1)) (suc n) then r + 1 else r

abbrev pub percents : ℕ
percents = 100

abbrev pub max_percents : ℕ
max_percents = 1000000 * percents

abbrev pub latency_vs_throughput : Tradeoff → ℕ
latency_vs_throughput cfg =
    if cfg.throughput_importance == 0
    then max_percents
    else Int64.quotient (Int64.mul cfg.latency_importance percents) cfg.throughput_importance

abbrev pub broadcast_cost : ℕ → ℕ → ℕ
broadcast_cost size passed = Int64.quotient (Int64.mul passed ((128 + size) % 2 ^ 64)) 128

-- 700 milliseconds for a balanced tradeoff
abbrev pub all_cost_target : ℕ → ℕ
all_cost_target tradeoff = Int64.quotient (Int64.mul tradeoff 700000000) percents

abbrev pub sqrt_cost_target : ℕ → ℕ
sqrt_cost_target tradeoff = Int64.mul (all_cost_target tradeoff) 10

-- The subset of the peers, at least four.
abbrev pub subset : ℕ → ℕ
subset peers_num = if ltb (sqrt peers_num) 4 then 4 else sqrt peers_num

-- The chain of tests, for the tradeoff.
unfoldable pub full_recipients : ℕ → ℕ → ℕ → ℕ → ℕ
full_recipients tradeoff size passed peers_num =
    if Int64.le max_percents tradeoff
    then peers_num
    else if Int64.le tradeoff 0
    then 0
    else if Int64.le (broadcast_cost size passed) (all_cost_target tradeoff)
    then peers_num
    else if Int64.le (broadcast_cost size passed) (sqrt_cost_target tradeoff) || passed == 0
    then subset peers_num
    else 0

-- `decideBroadcastAggressiveness`
unfoldable pub decide_broadcast_aggressiveness : Tradeoff → ℕ → ℕ → ℕ → ℕ
unfolding full_recipients
decide_broadcast_aggressiveness cfg size passed peers_num =
    let full = full_recipients (latency_vs_throughput cfg) size passed peers_num in
    if ltb peers_num full then peers_num else full
