-- ===== src/FreeList/Tests.antt =====
-- The allocator on small arenas, and the theorems at them.
use computersystems_monorepo.Prelude.{ℕ, ◌≡◌, refl, ◌⊎◌, arith, List, [], ◌∷◌, update}
use computersystems_monorepo.FreeList.{
  Memory, Run, ok, fault, header_size, null, sub_size, set_size, set_free, set_next, frag,
  find_block, take_block, allocate, pm_malloc, pm_free,
}
use computersystems_monorepo.FreeList.Chain.{Block, block, IsChain}
use computersystems_monorepo.FreeList.Write.{header}
use computersystems_monorepo.FreeList.Blocks.{alloc, merge_pass, release}
use computersystems_monorepo.FreeList.Malloc.{Ensures, Done, pm_malloc_refines}
use computersystems_monorepo.FreeList.Merge.{Matches}
use computersystems_monorepo.FreeList.Free.{pm_free_refines}
use computersystems_monorepo.FreeList.Safety.{Freed, malloc_free_faults, pm_free_safe}

abbrev unset : Memory
unset _ = header 0 0 null

-- An arena of 300 bytes at 1000 with 50 bytes in use, 30 free, 20 in use and the rest free.
abbrev blocks : List Block
blocks = block 50 0 ∷ block 30 1 ∷ block 20 0 ∷ block 104 1 ∷ []

abbrev arena : Memory
arena =
    update
      (update (update (update unset 1000 (header 50 0 1074)) 1074 (header 30 1 1128)) 1128
        (header 20 0 1172))
      1172 (header 104 1 null)

arena-IsChain : IsChain arena 1000 1300 blocks
arena-IsChain = (refl, (refl, (refl, (refl, refl))))

-- An arena of 108 bytes that is full.
abbrev full : Memory
full = update (update unset 1000 (header 40 0 1064)) 1064 (header 20 0 null)

abbrev pointer : Run (Memory × ℕ) → ℕ
pointer (ok (m, r)) = r
pointer _ = null

-- First fit takes the block behind the first, a large request the last; one of 100 bytes does not
-- fit, since the last block has no room for another header.
first_fit : pointer (pm_malloc 1000 300 30 arena) ≡ 1098
unfolding pm_malloc allocate find_block take_block set_free
first_fit = refl

large_fit : pointer (pm_malloc 1000 300 60 arena) ≡ 1196
unfolding pm_malloc allocate find_block take_block frag set_free set_size set_next
large_fit = refl

no_room : pointer (pm_malloc 1000 300 100 arena) ≡ null
unfolding pm_malloc allocate find_block take_block
no_room = refl

-- The first fit for 10 bytes is a block of 30 that cannot be split, and the call fails although
-- the last block has 104 bytes.
tight_fit : pointer (pm_malloc 1000 300 10 arena) ≡ null
unfolding pm_malloc allocate find_block take_block
tight_fit = refl

-- A request close to 2 ^ 64 wraps in the test for a split, and is granted.
huge_request : pointer (pm_malloc 1000 300 18446744073709551600 arena) ≡ 1196
unfolding pm_malloc allocate find_block take_block frag set_free set_size set_next
huge_request = refl

pm_malloc_refines_example :
    Ensures (Done arena 1000 1300 (alloc 60 1000 blocks)) (pm_malloc 1000 300 60 arena)
pm_malloc_refines_example =
    pm_malloc_refines 1000 300 60 arena (omega arith) (omega arith) (block 50 0)
      (block 30 1 ∷ block 20 0 ∷ block 104 1 ∷ []) arena-IsChain (λ e. omega arith)

malloc_free_faults_example :
    Ensures (λ (m', r). pm_free 1000 300 r m' ≡ fault) (pm_malloc 1000 300 60 unset)
malloc_free_faults_example =
    malloc_free_faults 1000 300 60 unset (omega arith) (omega arith) refl (omega arith)
      (λ e. omega arith)

pm_free_refines_example :
    Matches
      (set_free (sub_size 1024 header_size) 1 arena)
      1000
      1300
      (merge_pass (release 1024 1000 blocks))
      (pm_free 1000 300 1024 arena)
pm_free_refines_example =
    pm_free_refines 1000 300 1024 arena (omega arith) (λ e. omega arith) blocks arena-IsChain refl

pm_free_safe_example :
    (pm_free 1000 300 1024 arena ≡ fault)
    ⊎ Ensures (Freed 1000 1300 1024 blocks) (pm_free 1000 300 1024 arena)
pm_free_safe_example =
    pm_free_safe 1000 300 1024 arena (omega arith) (λ e. omega arith) blocks arena-IsChain refl
