-- ===== src/Service/Delivered.antt =====
-- The whole way of a transaction, from the message of a peer to a subscriber.
use mathlib.Core.List.{append_assoc, append-nil}
use sonicpeer.Base.{
  ℕ, zero, suc, ◌+◌, ◌≤◌, ◌≡◌, sym, ap, ◌∙◌, inl, inr, true, false, List, [], ◌∷◌, ◌++◌, some,
  arith, if◌then◌else◌, ltb, length, length-append, map, member, Bool-cases, Option-cases,
  some-injective,
}
use sonicpeer.Env.{Env, LruLaws}
use sonicpeer.Handler.{Handler}
use sonicpeer.Handler.Gossip.{handle_txs}
use sonicpeer.Handler.Gossip.Relayed.{taken, cache_after, offered, handle_txs-taken, takes}
use sonicpeer.Known.Fifo.{IsValid}
use sonicpeer.Peer.{Peer}
use sonicpeer.Service.{
  capacity, Feed, new_txs_hook, pump, notify, Event, hooked, pumped, notifies, happens, run,
}

-- A subscriber that has been notified of all but what waits in the channel of the service
abbrev pub idle : {T V : Type 0} → List T → List V → Feed T V
idle tx_ch seen = record { tx_ch = tx_ch; sub_ch = []; notified = seen; subscribed = true }

-- The goroutines take turns, for a number of transactions.
pub deliver : {T : Type 0} → ℕ → List (Event T)
deliver zero = []
deliver (suc n) = pumped ∷ notifies false ∷ deliver n

module _ {T V : Type 0} (shown : T → V) where
  run-append :
      (events later : List (Event T)) (f g : Feed T V)
      → run shown events f ≡ some g
      → run shown (events ++ later) f ≡ run shown later g
  unfolding run
  run-append [] later f g h = ap (run shown later) (some-injective h)
  run-append (x ∷ events) later f g h = elim (Option-cases (happens shown x f)) [
    | inl stuck ↦ absurd (ground (arith, rw stuck at h))
    | inr (f', ran) ↦ rw ran (run-append events later f' g (rw ran at h))
  ]

  hook_all :
      (txs tx_ch : List T) (seen : List V)
      → length tx_ch + length txs ≤ capacity
      → run shown (map hooked txs) (idle tx_ch seen) ≡ some (idle (tx_ch ++ txs) seen)
  unfolding run happens new_txs_hook
  hook_all [] tx_ch seen room = ap (λ l. some (idle l seen)) (sym (append-nil tx_ch))
  hook_all (tx ∷ txs) tx_ch seen room =
      let fits : ltb (length tx_ch) capacity ≡ true = ground (arith, room) in
      rw fits (
        hook_all txs (tx_ch ++ tx ∷ []) seen
          (omega (arith, room, length-append {0} tx_ch (tx ∷ [])))
        ∙ ap (λ l. some (idle l seen)) (append_assoc tx_ch (tx ∷ []) txs))

  deliver_all :
      (txs : List T) (seen : List V)
      → run shown (deliver (length txs)) (idle txs seen) ≡ some (idle [] (seen ++ map shown txs))
  unfolding run happens pump notify deliver
  deliver_all [] seen = ap (λ l. some (idle [] l)) (sym (append-nil seen))
  deliver_all (tx ∷ txs) seen =
      deliver_all txs (seen ++ shown tx ∷ [])
      ∙ ap (λ l. some (idle [] l)) (append_assoc seen (shown tx ∷ []) (map shown txs))

module _ {e : Env} {V : Type 0} (shown : e.Tx → V) (h : Handler e) where
  length-taken : (txs : List e.Tx) (cache : e.Lru) → length (taken h cache txs) ≤ length txs
  length-taken [] cache = omega arith
  length-taken (tx ∷ txs) cache = elim (Bool-cases (takes h cache tx)) [
    | inl c ↦ rw c (omega (arith, length-taken txs (e.lru_add cache (e.tx_hash tx))))
    | inr c ↦ rw c (omega (arith, length-taken txs cache))
  ]

  -- From the message of a peer to a subscriber, where the handler has the hook, the service is
  -- idle and the message has no more transactions than its channel holds: `handleTxs` returns,
  -- for a peer whose cache of known hashes is valid, the hook drops none of the transactions that
  -- it is given, and once the goroutines of the service and of the subscription have taken as
  -- many turns, the subscriber has been notified of exactly those, in order. If the caches of the
  -- handler keep their laws, the hash of each transaction that pays the minimal gas price and has
  -- a sender, and that the cache lacked at the start, is among theirs.
  pub handle_txs-notified :
      (laws : LruLaws e) (txs : List e.Tx) (p : Peer e) (seen : List V)
      → IsValid p.known_txs
      → h.has_new_txs_hook ≡ true
      → length txs ≤ capacity
      → (h' : Handler e) × (p' : Peer e) × (news : List e.Tx) × (handle_txs txs h p
          ≡ some (h', p', news))
        × (run shown (map hooked news ++ deliver (length news)) (idle [] seen)
            ≡ some (idle [] (seen ++ map shown news)))
        × ((x : ℕ)
            → member x (offered h txs) ≡ true
            → e.lru_contains h.tx_hash_cache x ≡ false
            → member x (map e.tx_hash news) ≡ true)
  handle_txs-notified laws txs p seen v on room =
      let (k, runs, marked, good, complete) = handle_txs-taken h laws txs p v in
      let news = taken h h.tx_hash_cache txs in
      let fits = length-taken txs h.tx_hash_cache in
      let h' : Handler e = record h { tx_hash_cache = cache_after h h.tx_hash_cache txs } in
      let p' : Peer e = record p { known_txs = k } in
      (
        h',
        p',
        news,
        runs ∙ ap (λ b. some (h', p', if b then news else [])) on,
        run-append shown (map hooked news) (deliver (length news)) (idle [] seen) (idle news seen)
              (hook_all shown news [] seen (omega (arith, fits, room)))
            ∙ deliver_all shown news seen,
        complete,
      )
