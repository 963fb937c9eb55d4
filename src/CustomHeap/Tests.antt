-- ===== src/CustomHeap/Tests.antt =====
-- A small run, and the theorems at it.
use computersystems_monorepo.Prelude.{◌≡◌, refl, arith, true, none, some, [], ◌∷◌}
use computersystems_monorepo.CustomHeap.{State, ok, exit, init_virtual_memory, allocate_all}
use computersystems_monorepo.CustomHeap.Bounds.{allocate_all-sum}

abbrev new : State
new = record {
  physical_memory = 4096;
  heap_start = 4096;
  heap_end = 69632;
  next_alloc = 4096;
  bytes = λ _. 0;
}

started : init_virtual_memory (some 4096) true true (λ _. 0) ≡ ok new
unfolding init_virtual_memory
started = refl

-- `malloc` returns NULL.
not_started : init_virtual_memory none true true (λ _. 0) ≡ exit
unfolding init_virtual_memory
not_started = refl

allocate_all-sum_example :
    allocate_all (16 ∷ 100 ∷ []) new ≡ ok (record new { next_alloc = 4212 }, 4096 ∷ 4112 ∷ [])
allocate_all-sum_example = allocate_all-sum (16 ∷ 100 ∷ []) new (omega arith) (omega arith)
