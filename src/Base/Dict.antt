-- ===== src/Base/Dict.antt =====
-- Go's `map[K]V` as an association list whose keys are pairwise distinct. Its order stands for the
-- order in which a `range` visits the map, which Go leaves open.
use Prim.Native.Nat.{ℕ}
use mathlib.Core.Path.{◌≡◌, refl, subst}
use mathlib.Core.List.{List, [], ◌∷◌}
use mathlib.Core.Option.{Option, none, some}
use native.Mathlib.Omega.{arith}
use mathlib.Core.Logic.{inl, inr}
use sonicpeer.Base.Tests.{◌==◌, if◌then◌else◌, Bool-cases}
use sonicpeer.Base.Lists.{All, All-map}

module _ {ℓ} {V : Type ℓ} where
  -- `m[k]`
  abbrev pub lookup : ℕ → List (ℕ × V) → Option V
  lookup k [] = none
  lookup k ((j, v) ∷ m) = if j == k then some v else lookup k m

  -- `m[k] = v`
  abbrev pub store : ℕ → V → List (ℕ × V) → List (ℕ × V)
  store k v [] = (k, v) ∷ []
  store k v ((j, w) ∷ m) = if j == k then (k, v) ∷ m else (j, w) ∷ store k v m

  -- `delete(m, k)`
  abbrev pub erase : ℕ → List (ℕ × V) → List (ℕ × V)
  erase k [] = []
  erase k ((j, w) ∷ m) = if j == k then m else (j, w) ∷ erase k m

  pub lookup-store :
      (k j : ℕ) (v : V) (m : List (ℕ × V))
      → lookup j (store k v m) ≡ (if k == j then some v else lookup j m)
  lookup-store k j v [] = refl
  lookup-store k j v ((i, w) ∷ m) = ground (arith, lookup-store k j v m)

  -- No key has two entries.
  abbrev pub Distinct : List (ℕ × V) → Type ℓ
  Distinct [] = Unit
  Distinct ((k, v) ∷ m) = (lookup k m ≡ none) × Distinct m

  pub lookup-erase :
      (k j : ℕ) (m : List (ℕ × V))
      → Distinct m
      → lookup j (erase k m) ≡ (if k == j then none else lookup j m)
  lookup-erase k j [] h = ground arith
  lookup-erase k j ((i, v) ∷ m) h = ground (arith, lookup-erase k j m h.1, h.0)

  pub store-Distinct : (k : ℕ) (v : V) (m : List (ℕ × V)) → Distinct m → Distinct (store k v m)
  store-Distinct k v [] h = (refl, tt)
  store-Distinct k v ((i, w) ∷ m) h = elim (Bool-cases (i == k)) [
    | inl same ↦ rw same (ground (arith, h.0), h.1)
    | inr other ↦ rw other (ground (arith, lookup-store k i v m, h.0), store-Distinct k v m h.1)
  ]

  pub erase-Distinct : (k : ℕ) (m : List (ℕ × V)) → Distinct m → Distinct (erase k m)
  erase-Distinct k [] h = tt
  erase-Distinct k ((i, w) ∷ m) h = elim (Bool-cases (i == k)) [
    | inl same ↦ rw same h.1
    | inr other ↦ rw other (ground (arith, lookup-erase k i m h.1, h.0), erase-Distinct k m h.1)
  ]

  -- Every entry is what a lookup of its key finds, and the other way round.
  pub All-lookup : (m : List (ℕ × V)) → Distinct m → All (λ x. lookup x.0 m ≡ some x.1) m
  All-lookup [] h = tt
  All-lookup ((k, v) ∷ m) h =
      (ground arith, All-map m (λ x e. ground (arith, e, h.0)) (All-lookup m h.1))

  pub lookup-All {κ} :
      (P : ℕ × V → Type κ) (m : List (ℕ × V)) (k : ℕ) (v : V)
      → All P m
      → lookup k m ≡ some v
      → P (k, v)
  lookup-All P [] k v all h = absurd (ground (arith, h))
  lookup-All P ((i, w) ∷ m) k v all h = elim (Bool-cases (i == k)) [
    | inl same ↦
        let key : i ≡ k = ground arith in
        let value : w ≡ v = ground arith in subst P (λ t. (key t, value t)) all.0
    | inr other ↦ lookup-All P m k v all.1 (rw other at h)
  ]
