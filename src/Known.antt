-- ===== src/Known.antt =====
-- pkg/gossip/peer.go: txCache and eventCache, the bounded sets of hashes that a peer is known to
-- have. The two types differ in the type of the hash alone, and a hash is read as the number that
-- its bytes spell; the names of `Known.Events` are those of eventCache. `keys` is the ring of the
-- hashes in the set, and `next` its oldest slot once it is full. A read outside the ring panics.
pub mod Events
pub mod Fifo
pub mod Recent
mod Tests
pub mod Sample
use sonicpeer.Base.{
  ℕ, ◌+◌, ◌%◌, Bool, List, [], ◌∷◌, ◌++◌, Option, none, some, if◌then◌else◌, ltb, length, get_elem?,
  set, member, insert, delete, ◌>>=◌,
}

pub record HashCache : Type 0 where
  pub items : List ℕ
  pub keys : List ℕ
  pub next : ℕ
  pub max : ℕ

-- `newTxCache`
unfoldable pub new : ℕ → HashCache
new max = record { items = []; keys = []; next = 0; max = max }

-- The branch of `Add` for a full ring: the oldest hash makes room.
evict : HashCache → ℕ → Option HashCache
evict c h = do
  old ← get_elem? c.keys c.next
  some (record c {
    items = insert h (delete old c.items);
    keys = set c.keys c.next h;
    next = (c.next + 1) % c.max;
  })

-- `Add`
unfoldable pub add : HashCache → ℕ → Option HashCache
unfolding evict
add c h =
    if member h c.items
    then some c
    else if ltb (length c.keys) c.max
    then some (record c { items = insert h c.items; keys = c.keys ++ h ∷ [] })
    else evict c h

-- The loops `for _, h := range hs { c.Add(h) }`.
unfoldable pub add_all : HashCache → List ℕ → Option HashCache
add_all c [] = some c
add_all c (h ∷ hs) = do c' ← add c h; add_all c' hs

-- `Contains`
unfoldable pub contains : HashCache → ℕ → Bool
contains c h = member h c.items

-- `Cardinality`
unfoldable pub cardinality : HashCache → ℕ
cardinality c = length c.items

-- `FilterNew`, over what has a hash.
unfoldable pub filter_new {ℓ} : {T : Type ℓ} → (T → ℕ) → HashCache → List T → List T → List T
unfolding contains
filter_new hash_of c [] dst = dst
filter_new hash_of c (t ∷ ts) dst =
    filter_new hash_of c ts (if contains c (hash_of t) then dst else dst ++ t ∷ [])
