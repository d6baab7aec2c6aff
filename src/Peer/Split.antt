-- ===== src/Peer/Split.antt =====
-- pkg/gossip/peer.go: SplitTransactions and SplitEvents, which cut a slice into batches of one message
-- each, within the soft limits of pkg/gossip/handler.go. The two functions differ in the type of the
-- items alone, so they are one over a function for the size of an item. The calls of the callback are
-- the list of its arguments; the outer loop has fuel, and `none` means that it ran out. Sizes are
-- plain numbers: a sum of them stays below 2 MiB plus one item.
use mathlib.Core.List.{flatten}
use sonicpeer.Base.{
  ℕ, zero, suc, ◌+◌, ◌-◌, ◌*◌, ◌≤◌, ◌<◌, ◌≡◌, refl, ap, ◌∙◌, ◌⊎◌, inl, inr, Bool, ◌||◌, List, [],
  ◌∷◌, ◌++◌, Option, none, some, arith, if◌then◌else◌, leb, length, take, drop, Bool-cases,
  length-drop, length-append, drop_all, take-take, length-take, take-append-drop, ◌>>=◌,
}

-- `softResponseLimitSize`
abbrev pub soft_response_limit_size : ℕ
soft_response_limit_size = 2 * 1024 * 1024

-- `softLimitItems`
abbrev pub soft_limit_items : ℕ
soft_limit_items = 250

-- The test for the `break`, after item `i`.
abbrev pub stops : ℕ → ℕ → Bool
stops batch_size i = leb soft_response_limit_size batch_size || leb soft_limit_items (i + 1)

module _ {T : Type 0} (size : T → ℕ) where
  -- The inner loop: how many items the next batch takes, where `batch_size` is what the loop has
  -- added up before item `i`.
  pub batch_length : ℕ → ℕ → List T → ℕ
  batch_length batch_size i [] = 0
  batch_length batch_size i (t ∷ ts) =
      let batch_size' = batch_size + (size t + 1024) in
      let rest = batch_length batch_size' (i + 1) ts in if stops batch_size' i then 1 else suc rest

  -- The outer loop: the batches in the order in which the callback gets them.
  split_loop : ℕ → List T → Option (List (List T))
  split_loop fuel [] = some []
  split_loop zero (t ∷ ts) = none
  split_loop (suc fuel) (t ∷ ts) = do
    let n = batch_length 0 0 (t ∷ ts)
    batches ← split_loop fuel (drop n (t ∷ ts))
    some (take n (t ∷ ts) ∷ batches)

  unfoldable pub split : List T → Option (List (List T))
  unfolding split_loop batch_length
  split ts = split_loop (length ts) ts

  -- What the items of a batch count for.
  abbrev pub weight : List T → ℕ
  weight [] = 0
  weight (t ∷ ts) = size t + 1024 + weight ts

  -- A batch is not empty, has at most 250 items, and its last item is the only one to pass the limit
  -- on the size.
  pub record IsBatch (b : List T) : Type 0 where
    pub some_item : 0 < length b
    pub few_items : length b ≤ soft_limit_items
    pub small : weight (take (length b - 1) b) < soft_response_limit_size

  -- A batch that has reached one of the limits.
  abbrev pub IsFull : List T → Type 0
  IsFull b = (soft_response_limit_size ≤ weight b) ⊎ (length b ≡ soft_limit_items)

  -- Batches of which all but the last are full.
  abbrev pub Batches : List (List T) → Type 0
  Batches [] = Unit
  Batches (b ∷ []) = IsBatch b
  Batches (b ∷ b' ∷ bs) = IsBatch b × IsFull b × Batches (b' ∷ bs)

  -- What the inner loop has found when it has taken `suc m` of the items `ts`.
  record Taken (acc i : ℕ) (ts : List T) (m : ℕ) : Type 0 where
    inside : m < length ts
    few : i + suc m ≤ soft_limit_items
    light : acc + weight (take m ts) < soft_response_limit_size
    reached :
        (suc m ≡ length ts)
        ⊎ ((soft_response_limit_size ≤ acc + weight (take (suc m) ts))
            ⊎ (i + suc m ≡ soft_limit_items))

  abbrev Takes : ℕ → ℕ → List T → ℕ → Type 0
  Takes acc i ts n = (m : ℕ) × (n ≡ suc m) × Taken acc i ts m

  module _ (acc i : ℕ) (t : T) (h : i < soft_limit_items) (k : acc < soft_response_limit_size) where
    one-Takes :
        (ts : List T)
        → (suc 0 ≡ length (t ∷ ts))
          ⊎ ((soft_response_limit_size ≤ acc + (size t + 1024)) ⊎ (i + 1 ≡ soft_limit_items))
        → Takes acc i (t ∷ ts) 1
    one-Takes ts r = (
      0,
      refl,
      record {
        inside = omega arith;
        few = omega arith;
        light = omega arith;
        reached = ground arith;
      },
    )

    more-Takes :
        (u : T) (ts : List T) (n : ℕ)
        → Takes (acc + (size t + 1024)) (i + 1) (u ∷ ts) n
        → Takes acc i (t ∷ u ∷ ts) (suc n)
    more-Takes u ts n (m, e, r) = (
      suc m,
      ap suc e,
      record {
        inside = omega (arith, r.inside);
        few = omega (arith, r.few);
        light = omega (arith, r.light);
        reached = ground (arith, r.reached);
      },
    )

  batch_length-Takes :
      (acc i : ℕ) (t : T) (ts : List T)
      → i < soft_limit_items
      → acc < soft_response_limit_size
      → Takes acc i (t ∷ ts) (batch_length acc i (t ∷ ts))
  unfolding batch_length
  batch_length-Takes acc i t [] h k =
      let one = one-Takes acc i t h k [] (inl refl) in
      elim (Bool-cases (stops (acc + (size t + 1024)) i)) [
        | inl stop ↦ rw stop one
        | inr go ↦ rw go one
      ]
  batch_length-Takes acc i t (u ∷ ts) h k = elim (Bool-cases (stops (acc + (size t + 1024)) i)) [
    | inl stop ↦ rw stop (one-Takes acc i t h k (u ∷ ts) (inr (ground arith)))
    | inr go ↦ rw go (
        more-Takes acc i t h k u ts _
          (batch_length-Takes (acc + (size t + 1024)) (i + 1) u ts (ground arith) (ground arith)))
  ]

  -- The first batch that the inner loop cuts off.
  first-IsBatch :
      (t : T) (ts : List T) (m : ℕ) → Taken 0 0 (t ∷ ts) m → IsBatch (take (suc m) (t ∷ ts))
  first-IsBatch t ts m r =
      let l : length (take m ts) ≡ m = omega (arith, length-take {0} m ts, r.inside) in
      record {
        some_item = omega arith;
        few_items = omega (arith, r.few);
        small =
            let back : suc (length (take m ts)) - 1 ≡ m = omega arith in
            rw back (rw (take-take m (suc m) (t ∷ ts) (omega arith)) (omega (arith, r.light)));
      }

  Batches-head : (b : List T) (bs : List (List T)) → Batches (b ∷ bs) → IsBatch b
  Batches-head b [] h = h
  Batches-head b (b' ∷ bs) h = h.0

  -- A batch in front of batches: it is full, or nothing is left.
  Batches-cons :
      (b : List T) (bs : List (List T)) (rest : List T)
      → IsBatch b
      → IsFull b ⊎ (rest ≡ [])
      → Batches bs
      → flatten bs ≡ rest
      → Batches (b ∷ bs)
  unfolding flatten
  Batches-cons b [] rest first full others e = first
  Batches-cons b (b' ∷ bs) rest first (inl full) others e = (first, full, others)
  Batches-cons b (b' ∷ bs) rest first (inr done) others e = absurd (
      omega (
        arith,
        ap length (e ∙ done),
        length-append {0} b' (flatten bs),
        (Batches-head b' bs others).some_item,
      ))

  abbrev Splits : ℕ → List T → Type 0
  Splits fuel ts =
      (bs : List (List T)) × (split_loop fuel ts ≡ some bs) × Batches bs × (flatten bs ≡ ts)

  split_loop-step :
      (fuel : ℕ) (t : T) (ts : List T) (n : ℕ)
      → batch_length 0 0 (t ∷ ts) ≡ n
      → (m : ℕ) → n ≡ suc m
      → Taken 0 0 (t ∷ ts) m
      → Splits fuel (drop m ts)
      → Splits (suc fuel) (t ∷ ts)
  unfolding split_loop flatten
  split_loop-step fuel t ts n cut m e r (bs, runs, good, joined) = (
    take (suc m) (t ∷ ts) ∷ bs,
    rw (cut, e, runs),
    Batches-cons (take (suc m) (t ∷ ts)) bs (drop m ts) (first-IsBatch t ts m r)
        (all_or_full r.reached) good joined,
    ap (λ xs. t ∷ take m ts ++ xs) joined ∙ ap (◌∷◌ t) (take-append-drop m ts),
  )
    where
      all_or_full :
          (suc m ≡ suc (length ts))
            ⊎ ((soft_response_limit_size ≤ 0 + (size t + 1024 + weight (take m ts)))
                ⊎ (0 + suc m ≡ soft_limit_items))
          → IsFull (take (suc m) (t ∷ ts)) ⊎ (drop m ts ≡ [])
      all_or_full (inl end) = inr (drop_all m ts (omega arith))
      all_or_full (inr (inl heavy)) = inl (inl (omega arith))
      all_or_full (inr (inr many)) = inl (inr (omega (arith, length-take {0} m ts, r.inside)))

  split_loop-Splits : (fuel : ℕ) (ts : List T) → length ts ≤ fuel → Splits fuel ts
  unfolding split_loop flatten
  split_loop-Splits zero [] h = ([], refl, tt, refl)
  split_loop-Splits (suc fuel) [] h = ([], refl, tt, refl)
  split_loop-Splits zero (t ∷ ts) h = absurd (omega arith)
  split_loop-Splits (suc fuel) (t ∷ ts) h =
      let (m, e, r) = batch_length-Takes 0 0 t ts (omega arith) (omega arith) in
      split_loop-step fuel t ts _ refl m e r
        (split_loop-Splits fuel (drop m ts) (omega (arith, length-drop {0} m ts)))

  pub split-Batches :
      (ts : List T) → (bs : List (List T)) × (split ts ≡ some bs) × Batches bs × (flatten bs ≡ ts)
  unfolding split
  split-Batches ts = split_loop-Splits (length ts) ts (omega arith)
