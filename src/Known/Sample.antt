-- ===== src/Known/Sample.antt =====
-- A cache of known hashes that is full, for the tests.
use sonicpeer.Base.{refl, [], ◌∷◌, arith}
use sonicpeer.Known.{HashCache}
use sonicpeer.Known.Fifo.{IsValid}

abbrev pub full_cache : HashCache
full_cache = record { items = 5 ∷ 6 ∷ 7 ∷ []; keys = 7 ∷ 5 ∷ 6 ∷ []; next = 1; max = 3 }

pub full_cache-IsValid : IsValid full_cache
full_cache-IsValid = record {
  room = omega arith;
  bounded = omega arith;
  filling = λ h. absurd (omega arith);
  same = λ a. ground arith;
  distinct = λ a. ground arith;
  size = refl;
}
