-- ===== src/PageHeap/Tests.antt =====
-- An arena of two blocks, and the theorem at it.
use computersystems_monorepo.Prelude.{◌≡◌, refl, arith, true, false, [], ◌∷◌, ltb, if◌then◌else◌}
use computersystems_monorepo.FreeList.Chain.{block}
use computersystems_monorepo.FreeList.Write.{header}
use computersystems_monorepo.Locked.Discipline.{is_guarded}
use computersystems_monorepo.Split.Absorb.{split, absorb_blocks}
use computersystems_monorepo.PageHeap.{Mmap, State, undefined, init, pm_malloc_lock, malloc_from}
use computersystems_monorepo.PageHeap.Blocks.{alloc}
use computersystems_monorepo.PageHeap.Refines.{Grants, pm_malloc_lock-Grants}

abbrev mmap : Mmap
mmap = record { anonymous = λ _. true; fixed = λ _. false; large = true }

-- A used block of 100 bytes and a free block of 3948 bytes; page 3 is used.
abbrev arena : State
arena = record {
  memory = λ a. if ltb a 1124 then header 100 0 1124 else header 3948 1 0;
  pageing = λ i. if ltb i 3 then 0 else 128;
}

second_block :
    alloc 40 1000 (block 100 0 ∷ block 3948 1 ∷ [])
    ≡ (block 100 0 ∷ block 40 0 ∷ block 3884 1 ∷ [], 1148)
unfolding alloc split absorb_blocks
second_block = refl

abbrev unset : State
unset = record { memory = λ _. header 0 0 0; pageing = λ _. 0 }

-- The first call of a program does not return.
first_call : (pm_malloc_lock true true mmap 1000 40 unset).result ≡ undefined
unfolding pm_malloc_lock malloc_from init
first_call = refl

pm_malloc_lock-Grants_example :
    let t = pm_malloc_lock true true mmap 1000 40 arena in
    Grants mmap arena 1000 (alloc 40 1000 (block 100 0 ∷ block 3948 1 ∷ [])) t.result
    × (is_guarded false t.events ≡ true)
pm_malloc_lock-Grants_example =
    pm_malloc_lock-Grants true true mmap 1000 40 arena (block 100 0) (block 3948 1 ∷ [])
      (omega arith) (omega arith) (omega arith) (omega arith) (refl, (refl, refl))
