-- ===== src/Locked/Tests.antt =====
-- The theorems at an arena that was not set up, and at one that was.
use computersystems_monorepo.Prelude.{◌≡◌, refl, arith, true, false, [], inl, inr}
use computersystems_monorepo.FreeList.{Memory, pm_malloc}
use computersystems_monorepo.FreeList.Chain.{block}
use computersystems_monorepo.FreeList.Write.{header}
use computersystems_monorepo.Locked.{arena_size, pm_malloc_lock}
use computersystems_monorepo.Locked.Discipline.{is_guarded, pm_malloc_lock-is_guarded}

abbrev unset : Memory
unset _ = header 0 0 0

-- One free block of 4072 bytes at 1000.
abbrev ready : Memory
ready _ = header 4072 1 0

first_call : is_guarded false (pm_malloc_lock 1000 40 unset).events ≡ false
first_call = (pm_malloc_lock-is_guarded 1000 40 unset (omega arith) (omega arith) (inl refl)).0

pm_malloc_lock-is_guarded_example :
    (is_guarded false (pm_malloc_lock 1000 40 ready).events ≡ true)
    × ((pm_malloc_lock 1000 40 ready).result ≡ pm_malloc 1000 arena_size 40 ready)
pm_malloc_lock-is_guarded_example =
    pm_malloc_lock-is_guarded 1000 40 ready (omega arith) (omega arith)
      (inr (block 4072 1, [], (refl, refl)))
