-- ===== src/Handler/Gossip/Announced.antt =====
-- The hashes that the handler asks a peer for when the peer announces them.
use mathlib.Core.List.{flatten, append_assoc, append-nil}
use sonicpeer.Base.{
  ℕ, ◌≡◌, refl, sym, ap, ◌∙◌, inl, inr, true, false, List, [], ◌∷◌, ◌++◌, some, arith,
  if◌then◌else◌, member, All, Bool-cases,
}
use sonicpeer.Env.{Env, LruLaws}
use sonicpeer.Known.{HashCache, add}
use sonicpeer.Known.Fifo.{IsValid, queue, add-enqueue}
use sonicpeer.Known.Recent.{enqueue_all}
use sonicpeer.Peer.{Peer, mark_transaction}
use sonicpeer.Peer.Request.{request_transactions, request_lem, send_each, IsSmall}
use sonicpeer.Protocol.Code
use sonicpeer.Handler.{Handler}
use sonicpeer.Handler.Gossip.{announce, handle_tx_hashes}

module _ (e : Env) where
  -- The announced hashes that the cache lacks when their turn comes, each then put in the cache; and
  -- the cache after that.
  abbrev pub unseen : e.Lru → List ℕ → List ℕ
  unseen cache [] = []
  unseen cache (id ∷ ids) =
      if e.lru_contains cache id then unseen cache ids else id ∷ unseen (e.lru_add cache id) ids

  abbrev pub seen : e.Lru → List ℕ → e.Lru
  seen cache [] = cache
  seen cache (id ∷ ids) =
      if e.lru_contains cache id then seen cache ids else seen (e.lru_add cache id) ids

module _ {e : Env} where
  -- What the loop returns on a valid cache of known hashes.
  pub record Announces (ids to_request : List ℕ) (cache : e.Lru) (p : Peer e) : Type 0 where
    pub known : HashCache
    pub runs :
        announce mark_transaction ids to_request cache p
        ≡ some (seen e cache ids, record p { known_txs = known }, to_request ++ unseen e cache ids)
    pub valid : IsValid known
    marked : queue known ≡ enqueue_all p.known_txs.max ids (queue p.known_txs)

  module _ (id : ℕ) (ids to_request : List ℕ) (cache : e.Lru) (p : Peer e) (k : HashCache)
      (one : add p.known_txs id ≡ some k) where
    announce-known :
        e.lru_contains cache id ≡ true
        → announce mark_transaction (id ∷ ids) to_request cache p
          ≡ announce mark_transaction ids to_request cache (record p { known_txs = k })
    unfolding announce mark_transaction
    announce-known c = rw one (rw c)

    announce-new :
        e.lru_contains cache id ≡ false
        → announce mark_transaction (id ∷ ids) to_request cache p
          ≡ announce mark_transaction ids
              (to_request ++ id ∷ [])
              (e.lru_add cache id)
              (record p { known_txs = k })
    unfolding announce mark_transaction
    announce-new c = rw one (rw c)

  pub announce-Announces :
      (ids to_request : List ℕ) (cache : e.Lru) (p : Peer e)
      → IsValid p.known_txs
      → Announces ids to_request cache p
  unfolding announce
  announce-Announces [] to_request cache p v = record {
    known = p.known_txs;
    runs = ap (λ l. some (cache, p, l)) (sym (append-nil to_request));
    valid = v;
    marked = refl;
  }
  announce-Announces (id ∷ ids) to_request cache p v =
      let (k, one, w, cap, front) = add-enqueue v id in
      elim (Bool-cases (e.lru_contains cache id)) [
        | inl c ↦
            let r = announce-Announces ids to_request cache (record p { known_txs = k }) w in
            record {
              known = r.known;
              runs = announce-known id ids to_request cache p k one c ∙ rw c r.runs;
              valid = r.valid;
              marked = r.marked ∙ (λ i. enqueue_all (cap i) ids (front i));
            }
        | inr c ↦
            let r =
              announce-Announces ids (to_request ++ id ∷ []) (e.lru_add cache id)
                (record p { known_txs = k }) w in
            record {
              known = r.known;
              runs =
                  announce-new id ids to_request cache p k one c
                  ∙ rw c (
                      rw (← append_assoc to_request (id ∷ []) (unseen e (e.lru_add cache id) ids))
                        r.runs);
              valid = r.valid;
              marked = r.marked ∙ (λ i. enqueue_all (cap i) ids (front i));
            }
      ]

  -- Every hash that the cache lacks is asked for when it is announced.
  unseen_complete :
      (laws : LruLaws e) (ids : List ℕ) (cache : e.Lru) (h : ℕ)
      → member h ids ≡ true
      → e.lru_contains cache h ≡ false
      → member h (unseen e cache ids) ≡ true
  unseen_complete laws [] cache h m absent = m
  unseen_complete laws (id ∷ ids) cache h m absent = ground (
    arith,
    laws.add-new cache id h,
    unseen_complete laws ids cache h,
    unseen_complete laws ids (e.lru_add cache id) h,
  )

  -- `handleTxHashes` always returns, for a peer whose cache of known hashes is valid. Every announced
  -- hash is marked as known to the peer; the hashes that the cache of the handler lacks in turn are put
  -- in it and asked for, in order, in batches within the soft limit, up to the first error of the
  -- connection; and an announced hash that the cache lacked at the start is among them.
  pub handle_tx_hashes-unseen :
      (laws : LruLaws e) (ids : List ℕ) (h : Handler e) (p : Peer e)
      → IsValid p.known_txs
      → (k : HashCache) × (batches : List (List ℕ)) × (handle_tx_hashes ids h p
          ≡ some (
            record h { tx_hash_cache = seen e h.tx_hash_cache ids },
            record p { known_txs = k; conn = (send_each e Code.get_evm_txs batches p.conn).0 },
          ))
        × (queue k ≡ enqueue_all p.known_txs.max ids (queue p.known_txs))
        × (flatten batches ≡ unseen e h.tx_hash_cache ids)
        × All (IsSmall e) batches
        × ((x : ℕ)
            → member x ids ≡ true
            → e.lru_contains h.tx_hash_cache x ≡ false
            → member x (flatten batches) ≡ true)
  unfolding handle_tx_hashes request_transactions
  handle_tx_hashes-unseen laws ids h p v =
      let r = announce-Announces ids [] h.tx_hash_cache p v in
      let (bs, sends, joined, small, _) =
        request_lem e Code.get_evm_txs (unseen e h.tx_hash_cache ids) in
      (
        r.known,
        bs,
        rw r.runs (rw (sends p.conn)),
        r.marked,
        joined,
        small,
        λ x m absent. ap (member x) joined ∙ unseen_complete laws ids h.tx_hash_cache x m absent,
      )
