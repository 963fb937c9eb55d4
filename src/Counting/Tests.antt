-- ===== src/Counting/Tests.antt =====
-- A round of main, and groups at a first step.
use computersystems_monorepo.Prelude.{
  ℕ, ◌+◌, ◌-◌, ◌*◌, ◌≡◌, ◌<◌, ◌≤◌, refl, arith, Option, none, [], ◌∷◌, ◌++◌,
}
use computersystems_monorepo.CText.{codes}
use computersystems_monorepo.Counting.{
  count_to, numfiles, State, Run, stops, goes, locks, lock, create, IsJoined, count_line,
}
use computersystems_monorepo.Counting.Poem.{sentences}
use computersystems_monorepo.Counting.Ends.{group_ends}
use computersystems_monorepo.Counting.Rounds.{Files, Rounds, counts_in, rounds_lem, rounds_exist}

line_of_count : count_line 30 ≡ codes "i = 30" ++ b'\n' ∷ []
line_of_count = refl

-- Thread 1 has the mutex.
abbrev first_step : ℕ → State
first_step i = lock 1 (create i none [])

first_step-Run : (i : ℕ) → Run (create i none []) 1 (first_step i)
first_step-Run i = goes 0 (create i none []) (first_step i) stops (locks 1 (omega arith) refl refl)

group_ends_example :
    ((m : ℕ) × (s' : State) × Run (first_step 0) m s' × IsJoined s')
    × (IsJoined (first_step 0) → 1 ≡ 3 * (count_to - 0) + 4)
group_ends_example = group_ends 0 [] 1 (first_step 0) (first_step-Run 0)

-- All files are empty before main.
abbrev empty : Files
empty f = []

abbrev behind : (i : ℕ) × (mutex : Option ℕ) × (files : Files) × Rounds empty numfiles i mutex files
behind = rounds_exist empty numfiles

rounds_lem_example :
    (behind.0 ≡ 30)
    × (behind.1 ≡ none)
    × ((f : ℕ) → f < 4 → behind.2 f ≡ [] ++ sentences ++ counts_in f)
    × ((f : ℕ) → 4 ≤ f → behind.2 f ≡ [])
rounds_lem_example = rounds_lem empty numfiles behind.0 behind.1 behind.2 behind.3
