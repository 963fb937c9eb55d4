-- ===== src/SharedData.antt =====
-- The counter of PracticumV2/main.c: four threads run thread_func2, whose first statement is
-- `shared_data += 1`, without a lock. It is a load and a store here, and the threads' loads and stores
-- come in any order. What thread_func2 does behind the statement leaves `shared_data` alone.
mod Range
mod Runs
mod Tests
use computersystems_monorepo.Prelude.{ℕ, ◌+◌, ◌<◌, ◌≡◌, update}

abbrev pub num_threads : ℕ
num_threads = 4

-- Where a thread stands: before the load, between load and store with the value that it has loaded,
-- and behind the store.
pub data Place : Type 0 where
  before : Place
  loaded : ℕ → Place
  stored : Place

pub record State : Type 0 where
  pub shared_data : ℕ
  pub place : ℕ → Place

abbrev pub load : ℕ → State → State
load t s = record s { place = update s.place t (loaded s.shared_data) }

abbrev pub store : (t value : ℕ) → State → State
store t value s = record s { shared_data = value + 1; place = update s.place t stored }

pub data Step (s : State) : State → Type 0 where
  loads : (t : ℕ) → t < num_threads → s.place t ≡ before → Step s (load t s)
  stores : (t value : ℕ) → t < num_threads → s.place t ≡ loaded value → Step s (store t value s)

-- Behind the calls of `pthread_create`.
abbrev pub created : State
created = record { shared_data = 0; place = λ t. before }

infixl 5 ◌▸◌
pub data Run : State → Type 0 where
  none_yet : Run created
  ◌▸◌ : {s s' : State} → Run s → Step s s' → Run s'

-- What the calls of `pthread_join` wait for.
abbrev pub IsJoined : State → Type 0
IsJoined s = (t : ℕ) → t < num_threads → s.place t ≡ stored
