-- ===== src/Locked.antt =====
-- The locking of pm_malloc_lock and pm_free_lock in A8/malloc.c and of pm_free_lock in
-- PracticumI/malloc.c. The functions `init`, `frag` and `mergefrag` that they call are those of
-- A7/malloc.c. A call is traced: every use of the list of blocks, and of the mutex, is an event.
pub mod Discipline
pub mod Tests
use computersystems_monorepo.Prelude.{
  ℕ, ◌+◌, Bool, true, false, ◌&&◌, leb, ◌==◌, List, [], ◌∷◌, ◌++◌,
}
use computersystems_monorepo.FreeList.{
  Memory, Run, ok, fault, out_of_fuel, header_size, sub_size, set_free, init, find_block,
  take_block, mergefrag,
}

-- `PAGE_SIZE` of A8/mymalloc.h.
abbrev pub arena_size : ℕ
arena_size = 4096

pub data Event : Type 0 where
  locks : Event
  unlocks : Event
  uses : Event

-- A call with its events, in order.
pub record Traced (A : Type 0) : Type 0 where
  pub result : A
  pub events : List Event

abbrev pub pure : {A : Type 0} → A → Traced A
pure a = record { result = a; events = [] }

abbrev pub emit : Event → Traced (Unit {0})
emit e = record { result = tt; events = e ∷ [] }

-- Code that reads or writes the list, with what it gives.
abbrev pub on_list : {A : Type 0} → A → Traced A
on_list a = record { result = a; events = uses ∷ [] }

infixl 5 ◌>>=◌ ◌>>◌
abbrev pub ◌>>=◌ : {A B : Type 0} → Traced A → (A → Traced B) → Traced B
◌>>=◌ t next =
    let rest = next t.result in record { result = rest.result; events = t.events ++ rest.events }

abbrev pub ◌>>◌ : {A B : Type 0} → Traced A → Traced B → Traced B
◌>>◌ t rest = t >>= λ _. rest

-- The call of `init` on an arena whose first size is 0, with the unlock behind it.
unfoldable pub set_up : (is_empty : Bool) (mem : ℕ) → Memory → Traced Memory
set_up true mem m = do m' ← on_list (init mem arena_size m); emit unlocks; pure m'
set_up false mem m = pure m

-- What follows the search: each of the three branches ends with an unlock.
unfoldable pub take_found : (n : ℕ) → Memory → Run ℕ → Traced (Run (Memory × ℕ))
take_found n m (ok current) = do
  taken ← on_list (take_block n current m)
  emit unlocks
  pure (ok taken)
take_found n m fault = pure fault
take_found n m out_of_fuel = pure out_of_fuel

unfoldable pub pm_malloc_lock : (mem n : ℕ) → Memory → Traced (Run (Memory × ℕ))
pm_malloc_lock mem n m = do
  emit locks
  is_empty ← on_list ((m mem).size == 0)
  m' ← set_up is_empty mem m
  found ← on_list (find_block (arena_size + 1) n mem m')
  take_found n m' found

-- An unlock behind a call that may end the program.
unfoldable pub then_unlock : Run Memory → Traced (Run Memory)
then_unlock (ok m) = do emit unlocks; pure (ok m)
then_unlock fault = pure fault
then_unlock out_of_fuel = pure out_of_fuel

-- A pointer outside of the arena is reported behind the unlock.
unfoldable pub free_if : (is_inside : Bool) (mem ptr : ℕ) → Memory → Traced (Run Memory)
free_if true mem ptr m = do
  m' ← on_list (set_free (sub_size ptr header_size) 1 m)
  merged ← on_list (mergefrag mem arena_size m')
  then_unlock merged
free_if false mem ptr m = do emit unlocks; pure (ok m)

unfoldable pub pm_free_lock : (mem ptr : ℕ) → Memory → Traced (Run Memory)
pm_free_lock mem ptr m = do
  emit locks
  free_if (leb mem ptr && leb ptr (mem + arena_size)) mem ptr m

-- `pm_free_lock` of PracticumI has one more unlock, behind both branches.
unfoldable pub pm_free_unlock_twice : (mem ptr : ℕ) → Memory → Traced (Run Memory)
pm_free_unlock_twice mem ptr m = do freed ← pm_free_lock mem ptr m; then_unlock freed
