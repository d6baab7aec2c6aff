-- ===== src/Lifecycle/Counting.antt =====
-- What a wait group counts: sums over the loops and the sessions, and what each phase stands for.
use sonicpeer.Base.{
  ℕ, zero, suc, refl, map, ◌+◌, ◌≡◌, Bool, true, false, List, [], ◌∷◌, ◌++◌, some, arith, get_elem?,
  set,
}
use sonicpeer.Lifecycle.{
  Loop, ended, Session, arriving, admitted, handling, shaken, registered, dropped, finished,
  cut_off, Phase, starting, waited, quitting, disconnected, stopped,
}

module _ {A : Type 0} (w : A → ℕ) where
  abbrev pub total : List A → ℕ
  total [] = 0
  total (x ∷ xs) = w x + total xs

  pub total-append : (xs ys : List A) → total (xs ++ ys) ≡ total xs + total ys
  total-append [] ys = omega arith
  total-append (x ∷ xs) ys = omega (arith, total-append xs ys)

  pub total-set :
      (xs : List A) (i : ℕ) (old v : A)
      → get_elem? xs i ≡ some old
      → total (set xs i v) + w old ≡ total xs + w v
  total-set [] i old v h = absurd (ground (arith, h))
  total-set (x ∷ xs) zero old v h = ground (arith, h)
  total-set (x ∷ xs) (suc i) old v h = omega (arith, total-set xs i old v h)

-- The loops that have not called `Done`, and the sessions between `Add` and `Done`.
abbrev pub pending : Loop → ℕ
pending ended = 0
pending _ = 1

abbrev pub inside : Session → ℕ
inside handling = 1
inside shaken = 1
inside registered = 1
inside dropped = 1
inside _ = 0

abbrev pub in_set : Session → ℕ
in_set registered = 1
in_set dropped = 1
in_set _ = 0

-- A registered session whose connection stands
abbrev pub connected : Session → ℕ
connected registered = 1
connected _ = 0

pub inside-cut_off : (xs : List Session) → total inside (map cut_off xs) ≡ total inside xs
inside-cut_off [] = refl
inside-cut_off (x ∷ xs) = omega (arith, inside-cut_off xs, one x)
  where
    one : (x : Session) → inside (cut_off x) ≡ inside x
    one arriving = refl
    one admitted = refl
    one handling = refl
    one shaken = refl
    one registered = refl
    one dropped = refl
    one finished = refl

pub connected-cut_off : (xs : List Session) → total connected (map cut_off xs) ≡ 0
connected-cut_off [] = refl
connected-cut_off (x ∷ xs) = omega (arith, connected-cut_off xs, one x)
  where
    one : (x : Session) → connected (cut_off x) ≡ 0
    one arriving = refl
    one admitted = refl
    one handling = refl
    one shaken = refl
    one registered = refl
    one dropped = refl
    one finished = refl

-- How many loops are spawned, and the flags of a phase.
abbrev pub spawned_at : Phase → ℕ
spawned_at (starting n) = n
spawned_at _ = 4

abbrev pub over_loops : Phase → Bool
over_loops waited = true
over_loops quitting = true
over_loops disconnected = true
over_loops stopped = true
over_loops _ = false

abbrev pub shut : Phase → Bool
shut disconnected = true
shut stopped = true
shut _ = false

abbrev pub is_stopped : Phase → Bool
is_stopped stopped = true
is_stopped _ = false
