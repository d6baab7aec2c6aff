-- ===== src/Base/Sets.antt =====
-- Go's `map[K]struct{}` as a list of keys that are pairwise distinct, and multiplicities.
use Prim.Native.Nat.{ℕ, zero, suc, ◌+◌, ◌<◌}
use mathlib.Core.Path.{◌≡◌, refl}
use mathlib.Core.Bool.{Bool, true, false}
use mathlib.Core.List.{List, [], ◌∷◌, ◌++◌}
use mathlib.Core.Option.{some}
use native.Mathlib.Omega.{arith}
use sonicpeer.Base.Tests.{◌==◌, if◌then◌else◌}
use sonicpeer.Base.Lists.{length, get_elem?, set}

-- `_, ok := m[a]`
abbrev pub member : ℕ → List ℕ → Bool
member a [] = false
member a (x ∷ xs) = if x == a then true else member a xs

-- `m[a] = struct{}{}`
abbrev pub insert : ℕ → List ℕ → List ℕ
insert a xs = if member a xs then xs else a ∷ xs

-- `delete(m, a)`
abbrev pub delete : ℕ → List ℕ → List ℕ
delete a [] = []
delete a (x ∷ xs) = if x == a then xs else x ∷ delete a xs

abbrev pub count : ℕ → List ℕ → ℕ
count a [] = 0
count a (x ∷ xs) = (if x == a then 1 else 0) + count a xs

pub count-append : (a : ℕ) (xs ys : List ℕ) → count a (xs ++ ys) ≡ count a xs + count a ys
count-append a [] ys = omega arith
count-append a (x ∷ xs) ys = ground (arith, count-append a xs ys)

pub member-count : (a : ℕ) (xs : List ℕ) → member a xs ≡ true → 0 < count a xs
member-count a [] h = ground arith
member-count a (x ∷ xs) h = ground (arith, member-count a xs)

pub not-member-count : (a : ℕ) (xs : List ℕ) → member a xs ≡ false → count a xs ≡ 0
not-member-count a [] h = refl
not-member-count a (x ∷ xs) h = ground (arith, not-member-count a xs)

pub count-delete :
    (a b : ℕ) (xs : List ℕ)
    → member b xs ≡ true
    → count a (delete b xs) + (if b == a then 1 else 0) ≡ count a xs
count-delete a b [] h = ground arith
count-delete a b (x ∷ xs) h = ground (arith, count-delete a b xs)

pub length-delete :
    (b : ℕ) (xs : List ℕ) → member b xs ≡ true → length (delete b xs) + 1 ≡ length xs
length-delete b [] h = ground arith
length-delete b (x ∷ xs) h = ground (arith, length-delete b xs)

pub count-set :
    (a i v old : ℕ) (xs : List ℕ)
    → get_elem? xs i ≡ some old
    → count a (set xs i v) + (if old == a then 1 else 0) ≡ count a xs + (if v == a then 1 else 0)
count-set a i v old [] h = ground arith
count-set a zero v old (x ∷ xs) h = ground arith
count-set a (suc i) v old (x ∷ xs) h = omega (arith, count-set a i v old xs h)

pub count_at : (i old : ℕ) (xs : List ℕ) → get_elem? xs i ≡ some old → 0 < count old xs
count_at i old [] h = ground arith
count_at zero old (x ∷ xs) h = ground arith
count_at (suc i) old (x ∷ xs) h = omega (arith, count_at i old xs h)

pub not-member-delete :
    (a b : ℕ) (xs : List ℕ) → member a xs ≡ false → member a (delete b xs) ≡ false
not-member-delete a b [] h = refl
not-member-delete a b (x ∷ xs) h = ground (arith, not-member-delete a b xs)

pub member-middle : (xs : List ℕ) (a : ℕ) (ys : List ℕ) → member a (xs ++ a ∷ ys) ≡ true
member-middle [] a ys = ground arith
member-middle (x ∷ xs) a ys = ground (arith, member-middle xs a ys)
