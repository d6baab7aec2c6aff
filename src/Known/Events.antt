-- ===== src/Known/Events.antt =====
-- pkg/gossip/peer.go: eventCache, whose methods have the bodies of those of txCache.
use sonicpeer.Base.{ℕ, Bool, List, Option}
use sonicpeer.Known.{HashCache}
use sonicpeer.Known

abbrev pub EventCache : Type 0
EventCache = HashCache

abbrev pub new : ℕ → EventCache
new = Known.new

abbrev pub add : EventCache → ℕ → Option EventCache
add = Known.add

abbrev pub contains : EventCache → ℕ → Bool
contains = Known.contains

abbrev pub cardinality : EventCache → ℕ
cardinality = Known.cardinality

abbrev pub filter_new {ℓ} : {T : Type ℓ} → (T → ℕ) → EventCache → List T → List T → List T
filter_new = Known.filter_new
