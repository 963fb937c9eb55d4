-- ===== src/Counting.antt =====
-- The threads of A5/multiprocess.c: `start_counting`, which counts the global `i` up to 30 under a
-- mutex and writes to the file it is given. A state is that of one group of two threads. What a file
-- got is the list of the texts that were put in it. The lines for the terminal are left out.
mod Poem
mod Punctuation
mod Quiet
mod Rounds
mod Steps
mod Tests
mod Ends
mod Group
use computersystems_monorepo.Prelude.{
  ℕ, suc, ◌+◌, ◌≤◌, ◌<◌, ◌≡◌, update, Option, none, some, List, [], ◌∷◌, ◌++◌,
}
use computersystems_monorepo.Posix.{Bytes}
use computersystems_monorepo.CText.{codes, digits}

abbrev pub count_to : ℕ
count_to = 30

abbrev pub max_cores : ℕ
max_cores = 2

abbrev pub numfiles : ℕ
numfiles = 4

-- Where a thread stands: before `pthread_mutex_lock`, at the test of the loop, behind `++i`, behind
-- `fputs`, and behind `pthread_mutex_unlock`.
pub data Phase : Type 0 where
  waiting : Phase
  testing : Phase
  raised : Phase
  told : Phase
  ended : Phase

-- `mutex` is the thread that holds the mutex.
pub record State : Type 0 where
  pub i : ℕ
  pub mutex : Option ℕ
  pub phase : ℕ → Phase
  pub out : List Bytes

abbrev pub set_phase : ℕ → Phase → State → State
set_phase t p s = record s { phase = update s.phase t p }

-- "Inside Sum function...\n" and "i = %lld\n".
abbrev pub inside_sum : Bytes
inside_sum = codes "Inside Sum function..." ++ b'\n' ∷ []

abbrev pub count_line : ℕ → Bytes
count_line i = codes "i = " ++ digits 19 10 i ++ b'\n' ∷ []

abbrev pub lock : ℕ → State → State
lock t s = record (set_phase t testing s) { mutex = some t }

abbrev pub raise : ℕ → State → State
raise t s = record (set_phase t raised s) { i = s.i + 1 }

abbrev pub tell : ℕ → State → State
tell t s = record (set_phase t told s) { out = s.out ++ inside_sum ∷ [] }

abbrev pub report : ℕ → State → State
report t s = record (set_phase t testing s) { out = s.out ++ count_line s.i ∷ [] }

abbrev pub unlock : ℕ → State → State
unlock t s = record (set_phase t ended s) { mutex = none }

-- A step of one of the threads; the mutex gives their order.
pub data Step (s : State) : State → Type 0 where
  locks : (t : ℕ) → t < max_cores → s.phase t ≡ waiting → s.mutex ≡ none → Step s (lock t s)
  raises : (t : ℕ) → t < max_cores → s.phase t ≡ testing → s.i < count_to → Step s (raise t s)
  tells : (t : ℕ) → t < max_cores → s.phase t ≡ raised → Step s (tell t s)
  reports : (t : ℕ) → t < max_cores → s.phase t ≡ told → Step s (report t s)
  unlocks : (t : ℕ) → t < max_cores → s.phase t ≡ testing → count_to ≤ s.i → Step s (unlock t s)

-- A number of steps, in any order that the mutex allows.
pub data Run (s : State) : ℕ → State → Type 0 where
  stops : Run s 0 s
  goes : (n : ℕ) (s' s'' : State) → Run s n s' → Step s' s'' → Run s (suc n) s''

-- The two calls of `pthread_create`, for a file that holds `out`.
abbrev pub create : ℕ → Option ℕ → List Bytes → State
create i mutex out = record { i = i; mutex = mutex; phase = λ t. waiting; out = out }

-- What `pthread_join` waits for.
abbrev pub IsJoined : State → Type 0
IsJoined s = (t : ℕ) → t < max_cores → s.phase t ≡ ended
