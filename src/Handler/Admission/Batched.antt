-- ===== src/Handler/Admission/Batched.antt =====
-- The session of a peer that runs this code and sends transactions in batches.
use mathlib.Core.List.{flatten}
use sonicpeer.Base.{
  ℕ, ◌≤◌, ◌≡◌, ◌++◌, subst, some-injective, refl, sym, ap, ◌∙◌, inl, inr, Bool, true, false, List,
  [], ◌∷◌, none, some, arith, All, if◌then◌else◌, length, Bool-cases,
}
use sonicpeer.Env.{Env, SemaphoreLaws, Makers, LimitLaws, LruLaws, WireLaws, received}
use sonicpeer.Protocol.Code
use sonicpeer.Known.{HashCache}
use sonicpeer.Known.Fifo.{IsValid}
use sonicpeer.Peer.{Peer}
use sonicpeer.Peer.Split.{split, split-Batches, IsBatch}
use sonicpeer.Handler.{Handler}
use sonicpeer.Handler.Gossip.{handle_txs}
use sonicpeer.Handler.Gossip.Relayed.{takes, taken, cache_after, relay-Relays, handle_txs-taken}
use sonicpeer.Handler.Messages.{message_weight, released, handle_msg}
use sonicpeer.Handler.Messages.Accepted.{
  check_len_limits-IsBatch, Batches-All, handle_msg-dispatch, dispatch-txs,
}
use sonicpeer.Handler.Admission.{Incoming, serve, writes}

module _ {e : Env} (h : Handler e) where
  taken-append :
      (xs ys : List e.Tx) (cache : e.Lru)
      → taken h cache (xs ++ ys) ≡ taken h cache xs ++ taken h (cache_after h cache xs) ys
  taken-append [] ys cache = refl
  taken-append (tx ∷ xs) ys cache = elim (Bool-cases (takes h cache tx)) [
    | inl c ↦ rw c (ap (λ l. tx ∷ l) (taken-append xs ys (e.lru_add cache (e.tx_hash tx))))
    | inr c ↦ rw c (taken-append xs ys cache)
  ]

  cache_after-append :
      (xs ys : List e.Tx) (cache : e.Lru)
      → cache_after h cache (xs ++ ys) ≡ cache_after h (cache_after h cache xs) ys
  cache_after-append [] ys cache = refl
  cache_after-append (tx ∷ xs) ys cache = elim (Bool-cases (takes h cache tx)) [
    | inl c ↦ rw c (cache_after-append xs ys (e.lru_add cache (e.tx_hash tx)))
    | inr c ↦ rw c (cache_after-append xs ys cache)
  ]

if-append :
    {A : Type 0} (b : Bool) (xs ys : List A)
    → (if b then xs else []) ++ (if b then ys else []) ≡ (if b then xs ++ ys else [])
if-append true xs ys = refl
if-append false xs ys = refl

if-nil : {A : Type 0} (b : Bool) → ◌≡◌ {A = List A} [] (if b then [] else [])
if-nil true = refl
if-nil false = refl

module _ {e : Env} (wire : WireLaws e) where
  -- A message with each of the batches, in their order
  pub data Carries : List (List e.Tx) → List (Incoming e) → Type 0 where
    nothing : Carries [] []
    carries :
        (now later size : ℕ) (batch : List e.Tx) (raw : List ℕ) {batches : List (List e.Tx)}
        {messages : List (Incoming e)}
        → e.encode_txs batch ≡ some raw
        → size ≤ e.max_msg_size
        → Carries batches messages
        → Carries (batch ∷ batches) (
            record {
              now = now;
              later = later;
              read = received Code.evm_txs size (wire.payload raw);
            }
            ∷ messages)

module _ {e : Env} {laws : SemaphoreLaws e} {makers : Makers e}
    (limits : LimitLaws e laws makers) where
  -- A semaphore that holds nothing, and that admits a message of any size that is allowed.
  pub record IsIdle (s : e.Semaphore) : Type 0 where
    pub no_num : (laws.held s).num ≡ 0
    pub no_size : (laws.held s).size ≡ 0
    pub one_fits : 1 ≤ (limits.limit s).num
    pub size_fits : e.max_msg_size ≤ (limits.limit s).size

  -- It grants a message, and is idle again when the message has been handled.
  released-IsIdle :
      (s : e.Semaphore) (size : ℕ)
      → size ≤ e.max_msg_size
      → IsIdle s
      → (t : e.Semaphore) × (e.try_acquire s (message_weight size) ≡ some t)
        × IsIdle (e.release t (message_weight size))
  released-IsIdle s size small idle =
      let w = message_weight size in
      let (t, granted) =
        limits.granted s w (omega (arith, idle.no_num, idle.one_fits))
          (omega (arith, idle.no_size, idle.size_fits, small)) in
      let a = laws.held-try_acquire s t w granted in
      let b = laws.held-release t w (omega (arith, a.0)) (omega (arith, a.1)) in
      let same = limits.limit-release t w ∙ limits.limit-try_acquire s t w granted in
      (
        t,
        granted,
        record {
          no_num = omega (arith, a.0, b.0, idle.no_num);
          no_size = omega (arith, a.1, b.1, idle.no_size);
          one_fits = rw same idle.one_fits;
          size_fits = rw same idle.size_fits;
        },
      )

  module _ (wire : WireLaws e) (lru : LruLaws e) where
    -- What a session has done with transactions
    pub record Served (messages : List (Incoming e)) (txs : List e.Tx) (h : Handler e) (p : Peer e)
        : Type 0 where
      pub handler : Handler e
      pub peer : Peer e
      pub runs :
          serve messages h p
          ≡ some
              (handler, peer, if h.has_new_txs_hook then taken h h.tx_hash_cache txs else [], none)
      pub cached : handler.tx_hash_cache ≡ cache_after h h.tx_hash_cache txs

    -- One message, on a semaphore that grants it
    handle_msg-batch :
        (now later size : ℕ) (batch : List e.Tx) (raw : List ℕ) (h : Handler e) (p : Peer e)
        (t : e.Semaphore)
        → e.encode_txs batch ≡ some raw
        → size ≤ e.max_msg_size
        → e.try_acquire h.msg_semaphore (message_weight size) ≡ some t
        → IsBatch e.tx_size batch
        → IsValid p.known_txs
        → (k : HashCache) × IsValid k
          × (handle_msg now later (received Code.evm_txs size (wire.payload raw)) h p
              ≡ some (
                record h {
                  tx_hash_cache = cache_after h h.tx_hash_cache batch;
                  msg_semaphore = e.release t (message_weight size);
                },
                record p { known_txs = k },
                if h.has_new_txs_hook then taken h h.tx_hash_cache batch else [],
                none,
              ))
    unfolding handle_txs
    handle_msg-batch now later size batch raw h p t encodes small granted is_batch valid =
        let h1 : Handler e = record h { msg_semaphore = t } in
        let h2 : Handler e = record h1 { tx_hash_cache = cache_after h h.tx_hash_cache batch } in
        let r = relay-Relays h1 batch [] h.tx_hash_cache p valid in
        let news = if h.has_new_txs_hook then taken h h.tx_hash_cache batch else [] in
        let runs : handle_txs batch h1 p ≡ some (h2, record p { known_txs = r.known }, news) =
          rw r.runs refl in
        let limits =
          check_len_limits-IsBatch (length batch) is_batch.some_item is_batch.few_items in
        (
          r.known,
          r.valid,
          handle_msg-dispatch wire lru now later Code.evm_txs size (wire.payload raw) h p t small
                granted
              ∙ ap (released size) (
                  dispatch-txs wire lru now later (wire.payload raw) h1 h2 p
                    (record p { known_txs = r.known }) batch news
                    (wire.decode-encode_txs batch raw encodes) limits runs),
        )

    serve-Served :
        {batches : List (List e.Tx)} {messages : List (Incoming e)}
        → Carries wire batches messages
        → (h : Handler e) (p : Peer e) → All (IsBatch e.tx_size) batches
        → IsIdle h.msg_semaphore
        → IsValid p.known_txs
        → Served messages (flatten batches) h p
    unfolding serve flatten
    serve-Served nothing h p all idle valid = record {
      handler = h;
      peer = p;
      runs = ap (λ l. some (h, p, l, none)) (if-nil h.has_new_txs_hook);
      cached = refl;
    }
    serve-Served (carries now later size batch raw {batches = batches} encodes small rest) h p all
          idle valid =
        let (t, granted, idle') = released-IsIdle h.msg_semaphore size small idle in
        let (k, valid', runs) =
          handle_msg-batch now later size batch raw h p t encodes small granted all.0 valid in
        let h' : Handler e = record h {
          tx_hash_cache = cache_after h h.tx_hash_cache batch;
          msg_semaphore = e.release t (message_weight size);
        } in
        let p' : Peer e = record p { known_txs = k } in
        let later' = serve-Served rest (writes p' h') p' all.1 idle' valid' in
        record {
          handler = later'.handler;
          peer = later'.peer;
          runs =
              rw (runs, serve)
                (rw later'.runs (
                  ap (λ l. some (later'.handler, later'.peer, l, none))
                    (if-append h.has_new_txs_hook (taken h h.tx_hash_cache batch)
                        (taken h h'.tx_hash_cache (flatten batches))
                      ∙ ap (λ l. if h.has_new_txs_hook then l else [])
                          (sym (taken-append h batch (flatten batches) h.tx_hash_cache)))));
          cached =
              later'.cached ∙ sym (cache_after-append h batch (flatten batches) h.tx_hash_cache);
        }

    -- Splitting transactions into batches does not change what another node makes of them: whatever
    -- the transactions, a session that gets them as the messages of their batches, one after the
    -- other, has no error, gives the hook exactly the transactions that it would be given for all of
    -- them at once, in the same order, and leaves the same hashes in the cache of the handler. This
    -- is so from a peer with valid marks, for messages within the size limit, and while the
    -- semaphore holds nothing else.
    pub serve-split :
        (txs : List e.Tx) (batches : List (List e.Tx)) (messages : List (Incoming e))
        (h : Handler e) (p : Peer e)
        → split e.tx_size txs ≡ some batches
        → Carries wire batches messages
        → IsIdle h.msg_semaphore
        → IsValid p.known_txs
        → (h1 : Handler e) × (p1 : Peer e) × (h2 : Handler e) × (p2 : Peer e) × (news : List e.Tx)
          × (handle_txs txs h p ≡ some (h1, p1, news))
          × (serve messages h p ≡ some (h2, p2, news, none))
          × (h2.tx_hash_cache ≡ h1.tx_hash_cache)
    serve-split txs batches messages h p splits carried idle valid =
        let (bs, runs, are_batches, joined) = split-Batches e.tx_size txs in
        let same : bs ≡ batches = some-injective (sym runs ∙ splits) in
        let all = subst (All (IsBatch e.tx_size)) same (Batches-All e.tx_size bs are_batches) in
        let whole : flatten batches ≡ txs = sym (ap flatten same) ∙ joined in
        let s =
          subst (λ l. Served messages l h p) whole (serve-Served carried h p all idle valid) in
        let (k, at_once, _, _, _) = handle_txs-taken h lru txs p valid in
        (_, _, s.handler, s.peer, _, at_once, s.runs, s.cached)
