-- ===== src/Workers.antt =====
-- The five worker threads of A4/EzeokekeC.cs5600.S23.c. Each runs through 20 critical sections, two in
-- each round `i` from 1 to 10. A step of a thread is one of the four things it does in a section; the
-- threads' steps come in any order that the mutex allows. `arr` is memory from the array on.
pub mod Exclusion
pub mod Progress
pub mod Tests
pub mod Turns
use computersystems_monorepo.Prelude.{
  ℕ, suc, ◌+◌, ◌*◌, ◌/◌, ◌%◌, ◌<◌, ◌≡◌, ◌==◌, Bool, true, false, if◌then◌else◌, update, Option,
  none, some,
}

abbrev pub threads : ℕ
threads = 5

abbrev pub arr_size : ℕ
arr_size = 10 * threads

-- Where a thread stands in its section: before `pthread_mutex_lock`, before and behind the assignment
-- to the array, and before `pthread_mutex_unlock`.
pub data Phase : Type 0 where
  outside : Phase
  locked : Phase
  written : Phase
  advanced : Phase

-- `mutex` is the thread that holds the mutex, `sections t` what thread `t` has behind it.
pub record State : Type 0 where
  pub arr : ℕ → ℕ
  pub aindex : ℕ
  pub mutex : Option ℕ
  pub phase : ℕ → Phase
  pub sections : ℕ → ℕ

-- The round of a section, and whether it is the first of its round.
abbrev pub round : ℕ → ℕ
round k = k / 2 + 1

abbrev pub is_first : ℕ → Bool
is_first k = k % 2 == 0

-- `ids[t]`, what is written in section `k`, and how far the index moves.
abbrev pub id : ℕ → ℕ
id t = t + 1

abbrev pub value : (t k : ℕ) → ℕ
value t k = if is_first k then id t * 100 + round k else id t * (round k * 2)

abbrev pub stride : ℕ → ℕ
stride k = if is_first k then 1 else 2

abbrev pub set_phase : ℕ → Phase → State → State
set_phase t p s = record s { phase = update s.phase t p }

abbrev pub lock : ℕ → State → State
lock t s = record (set_phase t locked s) { mutex = some t }

abbrev pub write : ℕ → State → State
write t s = record (set_phase t written s) { arr = update s.arr s.aindex (value t (s.sections t)) }

abbrev pub advance : ℕ → State → State
advance t s = record (set_phase t advanced s) { aindex = s.aindex + stride (s.sections t) }

abbrev pub unlock : ℕ → State → State
unlock t s = record (set_phase t outside s) {
  mutex = none;
  sections = update s.sections t (s.sections t + 1);
}

pub data Step (s : State) : State → Type 0 where
  locks :
      (t : ℕ)
      → t < threads
      → s.sections t < 20
      → s.phase t ≡ outside
      → s.mutex ≡ none
      → Step s (lock t s)
  writes : (t : ℕ) → t < threads → s.phase t ≡ locked → Step s (write t s)
  advances : (t : ℕ) → t < threads → s.phase t ≡ written → Step s (advance t s)
  unlocks : (t : ℕ) → t < threads → s.phase t ≡ advanced → Step s (unlock t s)

-- The globals when the workers are created.
unfoldable pub start : State
start = record { arr = λ _. 0; aindex = 0; mutex = none; phase = λ _. outside; sections = λ _. 0 }

pub data Reach : State → Type 0 where
  started : Reach start
  stepped : (s s' : State) → Reach s → Step s s' → Reach s'
