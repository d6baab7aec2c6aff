-- ===== src/Known/Tests.antt =====
-- The theorems about the caches of known hashes, at small caches.
use sonicpeer.Base.{◌≡◌, [], ◌∷◌, some}
use sonicpeer.Known.{HashCache, add}
use sonicpeer.Known.Fifo.{IsValid, queue, add-enqueue}
use sonicpeer.Known.Sample.{full_cache, full_cache-IsValid}

add-enqueue_example :
    (c : HashCache) × (add full_cache 8 ≡ some c)
    × IsValid c
    × (c.max ≡ 3)
    × (queue c ≡ 6 ∷ 7 ∷ 8 ∷ [])
add-enqueue_example = add-enqueue full_cache-IsValid 8
