-- ===== src/Workers/Tests.antt =====
-- The workers at their start and at their end, and the theorems there.
use computersystems_monorepo.Prelude.{◌≡◌, refl, arith}
use computersystems_monorepo.Workers.{
  State, lock, write, start, Reach, started, stepped, locks, writes,
}
use computersystems_monorepo.Workers.Progress.{WroteOutside, finished_outside}
use computersystems_monorepo.Workers.Turns.{workers_finish}

-- Thread 2 has the mutex and has written its first value.
abbrev writing : State
writing = write 2 (lock 2 start)

writing-Reach : Reach writing
unfolding start
writing-Reach =
    stepped _ _ (stepped _ _ started (locks 2 (omega arith) (omega arith) refl refl))
      (writes 2 (omega arith) refl)

first_value : writing.arr 0 ≡ 301
unfolding start
first_value = refl

finished_outside_example : WroteOutside workers_finish.0 workers_finish.1
finished_outside_example = finished_outside workers_finish.0 workers_finish.1 workers_finish.2
