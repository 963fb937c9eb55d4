-- ===== src/VmHeap/Reach.antt =====
-- The heaps that calls of thread_safe_malloc, thread_safe_free and pm_get of PracticumV2/mymalloc.c lead
-- to. The headers and the bytes of the blocks are kept apart in the model, so only calls count that use
-- each header as what it is: a pointer that is freed is NULL or that of a block on the list, and a block
-- that is read is in use, since pm_get puts a page over the headers behind a free one. Nothing is
-- written into the blocks: the header behind a split takes its data pointer from the memory there.
use computersystems_monorepo.Prelude.{ℕ, suc, ◌+◌, ◌≡◌, ◌≢◌, ◌⊎◌}
use computersystems_monorepo.VmHeap.Client.{block_of, thread_safe_free, pm_get}
use computersystems_monorepo.VmHeap.{
  null, header_size, Headers, Os, Heap, returns, thread_safe_malloc,
}

-- The block is on the list from `curr` on.
pub data Listed (m : Headers) (block : ℕ) : (curr : ℕ) → Type 0 where
  here : block ≢ null → Listed m block block
  behind : (curr : ℕ) → curr ≢ null → Listed m block (m curr).next → Listed m block curr

-- The pointer of a block on the list.
abbrev pub IsBlock : (ptr : ℕ) → Heap → Type 0
IsBlock ptr s = Listed s.blocks (block_of ptr) s.head

-- The block is in use, and its data are its own.
abbrev pub IsInUse : (ptr : ℕ) → Heap → Type 0
IsInUse ptr s =
    ((s.blocks (block_of ptr)).free ≡ 0)
    × ((s.blocks (block_of ptr)).data_ ≡ block_of ptr + header_size)

-- The heaps, with the number of calls that allocate. A call that ends the program leads to no heap.
pub data Reach (os : Os) (fuel : ℕ) : ℕ → Heap → Type 0 where
  starts : {s : Heap} → s.head ≡ null → Reach os fuel 0 s
  mallocs :
      {k : ℕ} {s t : Heap} (n result : ℕ)
      → Reach os fuel k s
      → thread_safe_malloc os fuel n s ≡ returns (t, result)
      → Reach os fuel (suc k) t
  frees :
      {k : ℕ} {s t : Heap} (ptr : ℕ)
      → Reach os fuel k s
      → (ptr ≡ null) ⊎ IsBlock ptr s
      → thread_safe_free os ptr s ≡ returns t
      → Reach os fuel k t
  gets :
      {k : ℕ} {s t : Heap} (ptr : ℕ) (value out : ℕ → ℕ) (size : ℕ)
      → Reach os fuel k s
      → IsBlock ptr s
      → IsInUse ptr s
      → pm_get os ptr value size s ≡ returns (t, out)
      → Reach os fuel k t
