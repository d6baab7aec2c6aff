-- ===== src/Handler/Gossip/Relayed.antt =====
-- The transactions that the handler hands to the hook.
use mathlib.Core.List.{append_assoc, append-nil}
use sonicpeer.Base.{
  ℕ, ◌≤◌, ◌≡◌, refl, sym, ap, ◌∙◌, inl, inr, Bool, true, false, not, ◌&&◌, List, [], ◌∷◌, ◌++◌, map,
  some, arith, if◌then◌else◌, member, All, Bool-cases, keep,
}
use sonicpeer.Env.{Env, LruLaws}
use sonicpeer.Known.{HashCache, add}
use sonicpeer.Known.Fifo.{IsValid, queue, add-enqueue}
use sonicpeer.Known.Recent.{enqueue_all}
use sonicpeer.Peer.{Peer, mark_transaction}
use sonicpeer.Handler.{Handler}
use sonicpeer.Handler.Gossip.{is_acceptable, relay, handle_txs}

module _ {e : Env} (h : Handler e) where
  -- Whether the handler takes a transaction, before it looks at the rest of the message.
  abbrev pub takes : e.Lru → e.Tx → Bool
  takes cache tx = not (e.lru_contains cache (e.tx_hash tx)) && is_acceptable h tx

  -- The transactions that the cache lacks when their turn comes and that pass the checks, each then
  -- put in the cache; and the cache after that.
  abbrev pub taken : e.Lru → List e.Tx → List e.Tx
  taken cache [] = []
  taken cache (tx ∷ txs) =
      if takes cache tx then tx ∷ taken (e.lru_add cache (e.tx_hash tx)) txs else taken cache txs

  abbrev pub cache_after : e.Lru → List e.Tx → e.Lru
  cache_after cache [] = cache
  cache_after cache (tx ∷ txs) =
      if takes cache tx
      then cache_after (e.lru_add cache (e.tx_hash tx)) txs
      else cache_after cache txs

  -- The list of the hook after more transactions.
  abbrev pub hooked_with : List e.Tx → List e.Tx → List e.Tx
  hooked_with hooked txs = if h.has_new_txs_hook then hooked ++ txs else hooked

  pub record Relays (txs hooked : List e.Tx) (cache : e.Lru) (p : Peer e) : Type 0 where
    pub known : HashCache
    pub runs :
        relay h txs hooked cache p
        ≡ some (
          cache_after cache txs,
          record p { known_txs = known },
          hooked_with hooked (taken cache txs),
        )
    pub valid : IsValid known
    pub marked : queue known ≡ enqueue_all p.known_txs.max (map e.tx_hash txs) (queue p.known_txs)

  module _ (tx : e.Tx) (txs hooked : List e.Tx) (cache : e.Lru) (p : Peer e) (k : HashCache)
      (one : add p.known_txs (e.tx_hash tx) ≡ some k) where
    relay-left :
        takes cache tx ≡ false
        → relay h (tx ∷ txs) hooked cache p ≡ relay h txs hooked cache (record p { known_txs = k })
    unfolding relay mark_transaction
    relay-left c = rw one (rw c)

    relay-taken :
        takes cache tx ≡ true
        → relay h (tx ∷ txs) hooked cache p
          ≡ relay h txs
              (hooked_with hooked (tx ∷ []))
              (e.lru_add cache (e.tx_hash tx))
              (record p { known_txs = k })
    unfolding relay mark_transaction
    relay-taken c = rw one (rw c)

  hooked_with-cons :
      (hooked : List e.Tx) (tx : e.Tx) (txs : List e.Tx)
      → hooked_with (hooked_with hooked (tx ∷ [])) txs ≡ hooked_with hooked (tx ∷ txs)
  hooked_with-cons hooked tx txs = elim (Bool-cases h.has_new_txs_hook) [
    | inl on ↦ simp on (append_assoc hooked (tx ∷ []) txs)
    | inr off ↦ simp off
  ]

  hooked_with-nil : (hooked : List e.Tx) → hooked_with hooked [] ≡ hooked
  hooked_with-nil hooked = elim (Bool-cases h.has_new_txs_hook) [
    | inl on ↦ simp on (append-nil hooked)
    | inr off ↦ simp off
  ]

  pub relay-Relays :
      (txs hooked : List e.Tx) (cache : e.Lru) (p : Peer e)
      → IsValid p.known_txs
      → Relays txs hooked cache p
  unfolding relay
  relay-Relays [] hooked cache p v = record {
    known = p.known_txs;
    runs = ap (λ l. some (cache, p, l)) (sym (hooked_with-nil hooked));
    valid = v;
    marked = refl;
  }
  relay-Relays (tx ∷ txs) hooked cache p v =
      let (k, one, w, cap, front) = add-enqueue v (e.tx_hash tx) in
      elim (Bool-cases (takes cache tx)) [
        | inr c ↦
            let r = relay-Relays txs hooked cache (record p { known_txs = k }) w in
            record {
              known = r.known;
              runs = relay-left tx txs hooked cache p k one c ∙ rw c r.runs;
              valid = r.valid;
              marked = r.marked ∙ (λ i. enqueue_all (cap i) (map e.tx_hash txs) (front i));
            }
        | inl c ↦
            let r =
              relay-Relays txs (hooked_with hooked (tx ∷ [])) (e.lru_add cache (e.tx_hash tx))
                (record p { known_txs = k }) w in
            record {
              known = r.known;
              runs =
                  relay-taken tx txs hooked cache p k one c
                  ∙ (r.runs
                      ∙ rw c (
                          ap
                            (λ l. some (
                              cache_after (e.lru_add cache (e.tx_hash tx)) txs,
                              record p { known_txs = r.known },
                              l,
                            ))
                            (hooked_with-cons hooked tx
                              (taken (e.lru_add cache (e.tx_hash tx)) txs))));
              valid = r.valid;
              marked = r.marked ∙ (λ i. enqueue_all (cap i) (map e.tx_hash txs) (front i));
            }
      ]

module _ {e : Env} (h : Handler e) where
  -- What the checks of the loop promise of a transaction.
  abbrev pub IsAcceptable : e.Tx → Type 0
  IsAcceptable tx = (h.min_gas_price ≤ e.gas_price tx) × (e.has_sender tx ≡ true)

  takes-IsAcceptable : (cache : e.Lru) (tx : e.Tx) → takes h cache tx ≡ true → IsAcceptable tx
  takes-IsAcceptable cache tx c = ground arith

  taken-All : (txs : List e.Tx) (cache : e.Lru) → All IsAcceptable (taken h cache txs)
  taken-All [] cache = tt
  taken-All (tx ∷ txs) cache = elim (Bool-cases (takes h cache tx)) [
    | inl c ↦ rw c (takes-IsAcceptable cache tx c, taken-All txs (e.lru_add cache (e.tx_hash tx)))
    | inr c ↦ rw c (taken-All txs cache)
  ]

  -- The hashes of the acceptable transactions of a message.
  abbrev pub offered : List e.Tx → List ℕ
  offered txs = map e.tx_hash (keep (is_acceptable h) txs)

  taken_complete :
      (laws : LruLaws e) (txs : List e.Tx) (cache : e.Lru) (x : ℕ)
      → member x (offered txs) ≡ true
      → e.lru_contains cache x ≡ false
      → member x (map e.tx_hash (taken h cache txs)) ≡ true
  taken_complete laws [] cache x o absent = o
  taken_complete laws (tx ∷ txs) cache x o absent = ground (
    arith,
    laws.add-new cache (e.tx_hash tx) x,
    taken_complete laws txs cache x,
    taken_complete laws txs (e.lru_add cache (e.tx_hash tx)) x,
  )

  -- `handleTxs` always returns, for a peer whose cache of known hashes is valid. The hash of every
  -- transaction is marked as known to the peer. What it hands to a hook, when the handler has one, is
  -- exactly the transactions that it puts in the cache, in order; each of them pays the minimal gas
  -- price and has a sender; and the hash of each transaction that does and that the cache lacked at
  -- the start is among theirs.
  pub handle_txs-taken :
      (laws : LruLaws e) (txs : List e.Tx) (p : Peer e)
      → IsValid p.known_txs
      → (k : HashCache) × (handle_txs txs h p
          ≡ some (
            record h { tx_hash_cache = cache_after h h.tx_hash_cache txs },
            record p { known_txs = k },
            if h.has_new_txs_hook then taken h h.tx_hash_cache txs else [],
          ))
        × (queue k ≡ enqueue_all p.known_txs.max (map e.tx_hash txs) (queue p.known_txs))
        × All IsAcceptable (taken h h.tx_hash_cache txs)
        × ((x : ℕ)
            → member x (offered txs) ≡ true
            → e.lru_contains h.tx_hash_cache x ≡ false
            → member x (map e.tx_hash (taken h h.tx_hash_cache txs)) ≡ true)
  unfolding handle_txs
  handle_txs-taken laws txs p v =
      let r = relay-Relays h txs [] h.tx_hash_cache p v in
      (
        r.known,
        rw r.runs refl,
        r.marked,
        taken-All txs h.tx_hash_cache,
        taken_complete laws txs h.tx_hash_cache,
      )
