-- ===== src/Handler/Aggressiveness/Bounds.antt =====
-- How the number of full recipients falls with time, and where the cost overflows.
use sonicpeer.Base.{
  ℕ, ◌+◌, ◌*◌, ◌/◌, ◌%◌, ◌^◌, ◌≤◌, ◌<◌, ◌≡◌, ◌∙◌, true, false, Bool-cases, inl, inr, ◌||◌, arith,
  if◌then◌else◌, ltb, leb, ◌==◌,
}
use sonicpeer.Base.Int64
use sonicpeer.Handler.Aggressiveness.{
  Tradeoff, latency_vs_throughput, max_percents, broadcast_cost, all_cost_target, sqrt_cost_target,
  subset, full_recipients, decide_broadcast_aggressiveness,
}

-- The number of recipients for a given cost, between the bounds of the tradeoff.
abbrev by_cost : ℕ → ℕ → ℕ → ℕ
by_cost tradeoff cost peers_num =
    if leb cost (tradeoff * 700000000 / 100)
    then peers_num
    else if leb cost (tradeoff * 700000000 / 100 * 10)
    then subset peers_num
    else 0

target-plain :
    (tradeoff : ℕ) → tradeoff < max_percents → all_cost_target tradeoff ≡ tradeoff * 700000000 / 100
target-plain tradeoff high =
    rw (Int64.mul_small tradeoff 700000000 (omega arith))
      (Int64.quotient_small (tradeoff * 700000000) 100 (omega arith) (omega arith))

module _ (tradeoff size passed peers_num : ℕ) (low : 0 < tradeoff) (high : tradeoff < max_percents)
    (bytes : 128 + size < 2 ^ 63) (short : passed * (128 + size) < 2 ^ 63) where
  cost-plain : broadcast_cost size passed ≡ passed * (128 + size) / 128
  cost-plain =
      let e : (128 + size) % 2 ^ 64 ≡ 128 + size = omega arith in
      rw e (
        rw (Int64.mul_small passed (128 + size) short)
          (Int64.quotient_small (passed * (128 + size)) 128 short (omega arith)))

  full_recipients-by_cost :
      full_recipients tradeoff size passed peers_num
      ≡ by_cost tradeoff (passed * (128 + size) / 128) peers_num
  unfolding full_recipients
  full_recipients-by_cost =
      let c = passed * (128 + size) / 128 in
      let t = tradeoff * 700000000 / 100 in
      let a : Int64.le max_percents tradeoff ≡ false =
        Int64.le_small max_percents tradeoff (omega arith) (omega arith) ∙ ground (arith, high) in
      let b : Int64.le tradeoff 0 ≡ false =
        Int64.le_small tradeoff 0 (omega arith) (omega arith) ∙ ground (arith, low) in
      let d : Int64.le (broadcast_cost size passed) (all_cost_target tradeoff) ≡ leb c t =
        rw cost-plain
          (rw (target-plain tradeoff high) (Int64.le_small c t (omega arith) (omega arith))) in
      let s : sqrt_cost_target tradeoff ≡ t * 10 =
        rw (target-plain tradeoff high) (Int64.mul_small t 10 (omega arith)) in
      let g : Int64.le (broadcast_cost size passed) (sqrt_cost_target tradeoff) ≡ leb c (t * 10) =
        rw cost-plain (rw s (Int64.le_small c (t * 10) (omega arith) (omega arith))) in
      rw a (rw b (rw d (rw g (joined c t (λ z. rw z (omega arith))))))
    where
      joined :
          (c t : ℕ)
          → (passed ≡ 0 → c ≡ 0)
          → (if leb c t
              then peers_num
              else if leb c (t * 10) || passed == 0
              then subset peers_num
              else 0)
            ≡ (if leb c t then peers_num else if leb c (t * 10) then subset peers_num else 0)
      joined c t none' = elim (Bool-cases (passed == 0)) [
        | inl zero' ↦ ground (arith, zero', none')
        | inr some' ↦ ground (arith, some')
      ]

-- The decision for a tradeoff.
abbrev clamped : ℕ → ℕ → ℕ
clamped peers_num full = if ltb peers_num full then peers_num else full

by_cost-falls :
    (tradeoff c c' peers_num : ℕ)
    → c ≤ c'
    → clamped peers_num (by_cost tradeoff c' peers_num)
      ≤ clamped peers_num (by_cost tradeoff c peers_num)
by_cost-falls tradeoff c c' peers_num h = ground (arith, h)

-- Where the tradeoff is between its two extremes and nothing overflows,
-- `decideBroadcastAggressiveness` chooses no more recipients than there are peers, and never more for
-- an older message of the same size.
pub decide-falls :
    (cfg : Tradeoff) (size passed passed' peers_num : ℕ)
    → 0 < latency_vs_throughput cfg
    → latency_vs_throughput cfg < max_percents
    → 128 + size < 2 ^ 63
    → passed' * (128 + size) < 2 ^ 63
    → passed ≤ passed'
    → (decide_broadcast_aggressiveness cfg size passed' peers_num
        ≤ decide_broadcast_aggressiveness cfg size passed peers_num)
      × (decide_broadcast_aggressiveness cfg size passed peers_num ≤ peers_num)
unfolding decide_broadcast_aggressiveness
decide-falls cfg size passed passed' peers_num low high bytes short older =
    let t = latency_vs_throughput cfg in
    let short' : passed * (128 + size) < 2 ^ 63 = grind (arith, short, older) in
    let less : passed * (128 + size) / 128 ≤ passed' * (128 + size) / 128 =
      let m : passed * (128 + size) ≤ passed' * (128 + size) = grind (arith, older) in
      omega (arith, m) in
    (
      rw (full_recipients-by_cost t size passed' peers_num low high bytes short) (
          rw (full_recipients-by_cost t size passed peers_num low high bytes short')
            (by_cost-falls t _ _ peers_num less)),
      ground arith,
    )

-- Where the tradeoff is between its two extremes and the product of the time and the size needs all
-- of the 64 bits, the cost is negative, and every peer is a full recipient, however old the message.
decide-overflown :
    (cfg : Tradeoff) (size passed peers_num : ℕ)
    → 0 < latency_vs_throughput cfg
    → latency_vs_throughput cfg < max_percents
    → 128 + size < 2 ^ 63
    → 2 ^ 63 ≤ passed * (128 + size)
    → passed * (128 + size) < 2 ^ 64
    → decide_broadcast_aggressiveness cfg size passed peers_num ≡ peers_num
unfolding decide_broadcast_aggressiveness full_recipients
decide-overflown cfg size passed peers_num low high bytes big fits =
    let t = latency_vs_throughput cfg in
    let a : Int64.le max_percents t ≡ false =
      Int64.le_small max_percents t (omega arith) (omega arith) ∙ ground (arith, high) in
    let b : Int64.le t 0 ≡ false =
      Int64.le_small t 0 (omega arith) (omega arith) ∙ ground (arith, low) in
    let d : Int64.le (broadcast_cost size passed) (all_cost_target t) ≡ true =
      let e : (128 + size) % 2 ^ 64 ≡ 128 + size = omega arith in
      rw e (
        rw (Int64.mul_fits passed (128 + size) fits) (
          rw (target-plain t high) (
            Int64.le-quotient_negative (passed * (128 + size)) (t * 700000000 / 100) big fits
              (omega (arith, high))))) in
    rw a (rw b (rw d (ground arith)))
