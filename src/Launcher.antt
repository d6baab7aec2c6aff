-- ===== src/Launcher.antt =====
-- cmd/app/launcher.go: the lists among the options of the command line, which splitAndTrim reads, and the
-- goroutine that waits for the end of the program. A text is its characters.
pub mod App
pub mod Split
mod Tests
use sonicpeer.Base.{
  ℕ, ◌+◌, ◌-◌, Bool, true, false, ◌&&◌, ◌||◌, List, [], ◌∷◌, ◌++◌, map, if◌then◌else◌, leb, ltb,
  ◌==◌, member,
}
use sonicpeer.Sentry.{Text}

-- unicode.IsSpace
abbrev pub is_space : ℕ → Bool
is_space c =
    leb 9 c && leb c 13
    || leb 8192 c && leb c 8202
    || member c (32 ∷ 133 ∷ 160 ∷ 5760 ∷ 8232 ∷ 8233 ∷ 8239 ∷ 8287 ∷ 12288 ∷ [])

-- ','
abbrev pub comma : ℕ
comma = 44

abbrev pub push : ℕ → List Text → List Text
push c [] = (c ∷ []) ∷ []
push c (part ∷ parts) = (c ∷ part) ∷ parts

-- `strings.Split` at commas
pub split : Text → List Text
split [] = [] ∷ []
split (c ∷ cs) = let parts = split cs in if c == comma then [] ∷ parts else push c parts

-- The two halves of `strings.TrimSpace`
abbrev pub trim_start : Text → Text
trim_start [] = []
trim_start (c ∷ cs) = let rest = trim_start cs in if is_space c then rest else c ∷ cs

abbrev pub cons_end : ℕ → Text → Text
cons_end c [] = if is_space c then [] else c ∷ []
cons_end c (d ∷ ds) = c ∷ d ∷ ds

abbrev pub trim_end : Text → Text
trim_end [] = []
trim_end (c ∷ cs) = cons_end c (trim_end cs)

-- `strings.TrimSpace`
abbrev pub trim_space : Text → Text
trim_space text = trim_end (trim_start text)

-- `splitAndTrim`
pub split_and_trim : Text → List Text
unfolding split
split_and_trim [] = []
split_and_trim (c ∷ cs) = map trim_space (split (c ∷ cs))

-- What the goroutine receives: a signal, or the stop of the test harness.
pub data Wake : Type 0 where
  signalled stop_asked : Wake

-- Whether `Stop` has been called, how many more signals make the program exit, and whether it has.
pub record Shutdown : Type 0 where
  pub stopping : Bool
  pub left : ℕ
  pub exited : Bool

abbrev pub waiting : Shutdown
waiting = record { stopping = false; left = 10; exited = false }

-- What the goroutine of startSentry does when it wakes up. Once it stops it only waits for signals.
pub wakes : Wake → Shutdown → Shutdown
wakes wake s =
    if s.stopping
    then elim wake [
      | stop_asked ↦ s
      | signalled ↦
          if ltb 1 s.left
          then record s { left = s.left - 1 }
          else record s { left = 0; exited = true }
    ]
    else record s { stopping = true }

pub shut_down : List Wake → Shutdown → Shutdown
unfolding wakes
shut_down [] s = s
shut_down (wake ∷ rest) s = shut_down rest (wakes wake s)
