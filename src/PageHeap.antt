-- ===== src/PageHeap.antt =====
-- The allocator of PracticumI/malloc.c: `init`, `allocate_page` and `pm_malloc_lock`, over `frag` of
-- Split. Whether a call of mmap works is the parameter `Mmap`; `open` and `ftruncate` work or fail. What
-- `memset` writes behind an exact fit lies in the block, and the model of memory has headers only.
pub mod Blocks
pub mod Pages
pub mod Refines
pub mod Tests
use computersystems_monorepo.Prelude.{
  ℕ, zero, suc, ◌+◌, ◌-◌, Bool, true, false, not, ◌&&◌, ◌||◌, ltb, ◌==◌, if◌then◌else◌, update,
  Option, none, some, List, [], ◌∷◌, ◌++◌, repeat_from,
}
use computersystems_monorepo.FreeList.{
  Memory, Run, ok, fault, out_of_fuel, header_size, null, add_size, sub_size, set_size, set_free,
  set_next,
}
use computersystems_monorepo.Split.{frag}
use computersystems_monorepo.Paging.{Statuses, used_bit, num_pages, page_size, set_page_dirty}
use computersystems_monorepo.Locked.{Traced, pure, emit, on_list, ◌>>=◌, ◌>>◌, locks, unlocks, uses}

-- `anonymous` and `fixed` are the two calls of allocate_page for a page, `large` that of pm_malloc_lock.
pub record Mmap : Type 0 where
  pub anonymous : ℕ → Bool
  pub fixed : ℕ → Bool
  pub large : Bool

pub record State : Type 0 where
  pub memory : Memory
  pub pageing : Statuses

-- How a call ends: `exits` is `exit(1)`, `undefined` a write through a pointer that was never set.
pub data Outcome (A : Type 0) : Type 0 where
  returns : A → Outcome A
  exits : Outcome A
  undefined : Outcome A
  faults : Outcome A
  runs_out : Outcome A

-- `init` never returns: it ends with `memset` of `p.pages`, where `p` is a local variable without a value.
unfoldable pub init : {A : Type 0} → (opened resized : Bool) → Outcome A
init opened resized = if not opened then exits else if not resized then exits else undefined

-- The result is whether the page is not NULL.
unfoldable pub allocate_page : Mmap → (page_num : ℕ) → Statuses → Statuses × Bool
allocate_page mmap page_num pageing =
    if not (mmap.anonymous page_num)
    then (pageing, false)
    else (set_page_dirty page_num true (update pageing page_num used_bit), mmap.fixed page_num)

-- The body of the loop over the pages; the result of allocate_page is not used.
unfoldable pub allocate_if_used : Mmap → (page_num : ℕ) → Statuses → Statuses
allocate_if_used mmap page_num pageing =
    if pageing page_num == used_bit then (allocate_page mmap page_num pageing).0 else pageing

unfoldable pub allocate_used : Mmap → Statuses → Statuses
allocate_used mmap pageing = repeat_from (allocate_if_used mmap) 0 num_pages pageing

-- The search of pm_malloc_lock, with the block before.
unfoldable pub search_block : ℕ → (n prev current : ℕ) → Memory → Run (ℕ × ℕ)
search_block zero n prev current m = out_of_fuel
search_block (suc fuel) n prev current m =
    elim ((ltb (m current).size n || ((m current).free == 0)) && not ((m current).next == null)) [
      | true ↦ search_block fuel n current (m current).next m
      | false ↦ ok (prev, current)
    ]

-- `if (!current)`: a new block is written to the start of the arena.
unfoldable pub grow : Mmap → (mem n prev current : ℕ) → Memory → Option (Memory × ℕ)
grow mmap mem n prev current m =
    if current == null
    then (if mmap.large
        then (let size = if ltb page_size n then n else page_size in
            let m₁ = set_size mem (sub_size size header_size) m in
            let m₂ = set_next mem null (set_free mem 1 m₁) in some (set_next prev mem m₂, mem))
        else none)
    else some (m, current)

-- The three branches at the end.
unfoldable pub take_or_split : (n current : ℕ) → Memory → Memory × ℕ
take_or_split n current m =
    if (m current).size == n
    then (set_free current 0 m, add_size current header_size)
    else if ltb (add_size n header_size) (m current).size
    then (frag current n m, add_size current header_size)
    else (m, null)

-- From the test of `current` on.
unfoldable pub take_grown :
    Mmap → (n : ℕ) → State → Option (Memory × ℕ) → Traced (Outcome (State × ℕ))
take_grown mmap n s none = do emit unlocks; pure (returns (s, null))
take_grown mmap n s (some (m, current)) = do
  pageing ← on_list (allocate_used mmap s.pageing)
  taken ← on_list (take_or_split n current m)
  emit unlocks
  pure (returns (record { memory = taken.0; pageing = pageing }, taken.1))

unfoldable pub take_searched :
    Mmap → (mem n : ℕ) → State → Run (ℕ × ℕ) → Traced (Outcome (State × ℕ))
take_searched mmap mem n s (ok (prev, current)) = do
  grown ← on_list (grow mmap mem n prev current s.memory)
  take_grown mmap n s grown
take_searched mmap mem n s fault = pure faults
take_searched mmap mem n s out_of_fuel = pure runs_out

-- The fuel is more than the arena of `page_size` bytes has blocks.
unfoldable pub malloc_from :
    (is_empty opened resized : Bool) → Mmap → (mem n : ℕ) → State → Traced (Outcome (State × ℕ))
malloc_from true opened resized mmap mem n s = on_list (init opened resized)
malloc_from false opened resized mmap mem n s = do
  found ← on_list (search_block (page_size + 1) n mem mem s.memory)
  take_searched mmap mem n s found

unfoldable pub pm_malloc_lock :
    (opened resized : Bool) → Mmap → (mem n : ℕ) → State → Traced (Outcome (State × ℕ))
pm_malloc_lock opened resized mmap mem n s = do
  emit locks
  is_empty ← on_list ((s.memory mem).size == 0)
  malloc_from is_empty opened resized mmap mem n s
