-- ===== src/Peer/Request.antt =====
-- pkg/gossip/peer.go: RequestEvents and RequestTransactions, which ask a peer for hashes in batches of
-- at most `soft_limit_items`. They differ in the message's code alone. The loop has fuel, and `none`
-- means that it ran out.
use mathlib.Core.List.{flatten}
use mathlib.Core.List.{append-nil}
use sonicpeer.Base.{
  ℕ, zero, suc, ◌+◌, ◌-◌, ◌*◌, ◌≤◌, ◌<◌, ◌≡◌, refl, sym, ◌⊎◌, inl, inr, List, [], ◌∷◌, ◌++◌, Option,
  none, some, arith, if◌then◌else◌, ltb, length, take, take_all, drop, All, Bool-cases, length-drop,
  length-take, take-append-drop, drop-drop, drop_all, not-lt→ltb, lt→ltb,
}
use sonicpeer.Env.{Env}
use sonicpeer.Protocol.{Error}
use sonicpeer.Protocol.Code
use sonicpeer.Peer.Split.{soft_limit_items}

module _ (e : Env) where
  -- The body of the loop for one batch: the connection afterwards, and the error that ends the loop.
  pub request_batch : ℕ → e.Conn → List ℕ → e.Conn × Option Error
  request_batch code conn batch = elim (e.encode_hashes batch) [
    | none ↦ (conn, some Error.encode_failed)
    | some raw ↦
        let (conn', err) = e.send conn code raw in
        (conn', elim err [ none ↦ none | some x ↦ some (Error.write_failed x) ])
  ]

  -- An error ends the loop.
  abbrev proceed {ℓ} :
      {R : Type ℓ} → (e.Conn × Option Error → R) → (e.Conn → R) → e.Conn × Option Error → R
  proceed stop next (conn, none) = next conn
  proceed stop next (conn, some x) = stop (conn, some x)

  -- The loop from `start` on.
  request_loop : ℕ → ℕ → List ℕ → ℕ → e.Conn → Option (e.Conn × Option Error)
  request_loop zero code ids start conn = if ltb start (length ids) then none else some (conn, none)
  request_loop (suc fuel) code ids start conn =
      let end =
        if ltb (start + soft_limit_items) (length ids)
        then start + soft_limit_items
        else length ids in
      let batch = take (end - start) (drop start ids) in
      let rest = request_loop fuel code ids (start + soft_limit_items) in
      if ltb start (length ids)
      then proceed some rest (request_batch code conn batch)
      else some (conn, none)

  pub request : ℕ → e.Conn → List ℕ → Option (e.Conn × Option Error)
  unfolding request_loop
  request code conn ids = request_loop (length ids) code ids 0 conn

  -- `RequestEvents`
  unfoldable pub request_events : e.Conn → List ℕ → Option (e.Conn × Option Error)
  request_events = request Code.get_events

  -- `RequestTransactions`
  unfoldable pub request_transactions : e.Conn → List ℕ → Option (e.Conn × Option Error)
  request_transactions = request Code.get_evm_txs

  -- Batches sent one after the other, up to the first error.
  abbrev pub send_each : ℕ → List (List ℕ) → e.Conn → e.Conn × Option Error
  send_each code [] conn = (conn, none)
  send_each code (b ∷ bs) conn = proceed (λ r. r) (send_each code bs) (request_batch code conn b)

  abbrev pub IsSmall : List ℕ → Type 0
  IsSmall b = (0 < length b) × (length b ≤ soft_limit_items)

  -- What the loop sends from `start` on, whatever the state of the connection.
  record Sends (fuel code : ℕ) (ids : List ℕ) (start : ℕ) : Type 0 where
    batches : List (List ℕ)
    runs :
        (conn : e.Conn) → request_loop fuel code ids start conn ≡ some (send_each code batches conn)
    joined : flatten batches ≡ drop start ids
    small : All IsSmall batches
    no_more : length batches * soft_limit_items < length ids - start + soft_limit_items

  proceed-some :
      (k k' : e.Conn → e.Conn × Option Error) (f : e.Conn → Option (e.Conn × Option Error))
      → ((conn : e.Conn) → f conn ≡ some (k conn))
      → (r : e.Conn × Option Error) → proceed some f r ≡ some (proceed (λ x. x) k r)
  proceed-some k k' f h (conn, none) = h conn
  proceed-some k k' f h (conn, some x) = refl

  request_loop-stop :
      (fuel code : ℕ) (ids : List ℕ) (start : ℕ) → length ids ≤ start → Sends fuel code ids start
  unfolding request_loop flatten
  request_loop-stop fuel code ids start h = record {
    batches = [];
    runs = halted fuel;
    joined = sym (drop_all start ids h);
    small = tt;
    no_more = omega arith;
  }
    where
      halted :
          (fuel : ℕ) (conn : e.Conn) → request_loop fuel code ids start conn ≡ some (conn, none)
      halted zero conn = rw (not-lt→ltb start (length ids) h)
      halted (suc fuel) conn = rw (not-lt→ltb start (length ids) h)

  -- The slice that the loop takes at `start`.
  slice-joined :
      (ids : List ℕ) (start n : ℕ)
      → (n ≡ soft_limit_items) ⊎ ((length ids ≤ start + n) × (n ≤ soft_limit_items))
      → take n (drop start ids) ++ drop (start + soft_limit_items) ids ≡ drop start ids
  slice-joined ids start n (inl h) = rw h (
      rw (← drop-drop start soft_limit_items ids)
        (take-append-drop soft_limit_items (drop start ids)))
  slice-joined ids start n (inr h) = rw (drop_all (start + soft_limit_items) ids (omega arith)) (
      rw (take_all n (drop start ids) (omega (arith, length-drop {0} start ids)))
        (append-nil (drop start ids)))

  -- How many hashes the loop takes at `start`.
  abbrev slice_end : List ℕ → ℕ → ℕ
  slice_end ids start =
      if ltb (start + soft_limit_items) (length ids) then start + soft_limit_items else length ids

  slice-size :
      (ids : List ℕ) (start : ℕ)
      → start < length ids
      → let n = slice_end ids start - start in
        ((n ≡ soft_limit_items) ⊎ ((length ids ≤ start + n) × (n ≤ soft_limit_items)))
        × (0 < n)
        × (n ≤ soft_limit_items)
        × (n ≤ length (drop start ids))
  slice-size ids start h = ground (arith, length-drop {0} start ids)

  request_loop-step :
      (fuel code : ℕ) (ids : List ℕ) (start : ℕ)
      → start < length ids
      → Sends fuel code ids (start + soft_limit_items)
      → Sends (suc fuel) code ids start
  unfolding request_loop flatten
  request_loop-step fuel code ids start h s =
      let n = slice_end ids start - start in
      let (how, pos, few, inside) = slice-size ids start h in
      let l : length (take n (drop start ids)) ≡ n =
        omega (arith, length-take {0} n (drop start ids), inside) in
      record {
        batches = take n (drop start ids) ∷ s.batches;
        runs = λ conn.
            rw (lt→ltb start (length ids) h)
              (proceed-some (send_each code s.batches) (λ c. (c, none)) _ s.runs _);
        joined = rw s.joined (slice-joined ids start n how);
        small = ((omega (arith, l, pos), omega (arith, l, few)), s.small);
        no_more = omega (arith, s.no_more);
      }

  request_loop-Sends :
      (fuel code : ℕ) (ids : List ℕ) (start : ℕ)
      → length ids ≤ start + fuel
      → Sends fuel code ids start
  request_loop-Sends zero code ids start h = request_loop-stop zero code ids start (omega arith)
  request_loop-Sends (suc fuel) code ids start h = elim (Bool-cases (ltb start (length ids))) [
    | inl more ↦
        request_loop-step fuel code ids start (ground arith)
          (request_loop-Sends fuel code ids (start + soft_limit_items) (omega arith))
    | inr done ↦ request_loop-stop (suc fuel) code ids start (ground arith)
  ]

  -- The batches that a request sends.
  pub request_lem :
      (code : ℕ) (ids : List ℕ)
      → (bs : List (List ℕ)) × ((conn : e.Conn)
          → request code conn ids ≡ some (send_each code bs conn))
        × (flatten bs ≡ ids)
        × All IsSmall bs
        × (length bs * soft_limit_items < length ids + soft_limit_items)
  unfolding request
  request_lem code ids =
      let s = request_loop-Sends (length ids) code ids 0 (omega arith) in
      (s.batches, s.runs, s.joined, s.small, omega (arith, s.no_more))
