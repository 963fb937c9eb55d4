-- ===== src/VmHeap/Client.antt =====
-- thread_safe_free, pm_put, pm_get and save_dirty_page, and the tables and the simulated memory that
-- the simulator takes from the heap.
use computersystems_monorepo.Prelude.{
  ℕ, zero, suc, ◌+◌, ◌-◌, ◌*◌, ◌%◌, ◌^◌, ◌&&◌, ◌||◌, ltb, leb, ◌==◌, if◌then◌else◌, update, Option,
  none, some, List, [], ◌∷◌,
}
use computersystems_monorepo.VmHeap.{
  null, page_size, header_size, Header, Entry, Os, Heap, Call, returns, exit, and_then,
  thread_safe_malloc,
}

-- `(struct block *) ptr - 1`.
abbrev pub block_of : ℕ → ℕ
block_of ptr = (ptr + 2 ^ 64 - header_size) % 2 ^ 64

-- A dirty page is written to pagefile.bin, and the program ends where that fails or the disk is full.
unfoldable pub clean : Os → (page_num : ℕ) → Heap → Call Heap
clean os page_num s =
    if s.dirty page_num == 0
    then returns s
    else if os.saves page_num && os.has_room
    then returns (record s { dirty = update s.dirty page_num 0 })
    else exit

-- The first entry for the address is taken out of the page table.
unfoldable pub remove_entry : ℕ → List Entry → List Entry
remove_entry a [] = []
remove_entry a (e ∷ es) =
    let rest = remove_entry a es in if e.virtual_address == a then es else e ∷ rest

-- `thread_safe_free` behind the page file.
unfoldable pub forget : (block : ℕ) → Heap → Heap
forget block s = record s {
  page_table = remove_entry (s.blocks block).data_ s.page_table;
  blocks = update s.blocks block (record (s.blocks block) { free = 1 });
}

-- For the pointer of a block: any other one makes C take 32 bytes of something else for a header.
unfoldable pub thread_safe_free : Os → (ptr : ℕ) → Heap → Call Heap
thread_safe_free os ptr s =
    let block = block_of ptr in
    if ptr == null
    then returns s
    else and_then (clean os (s.blocks block).page_num s) λ t. returns (forget block t)

-- `memcpy` of `size` bytes of `from`, from its position 0 on, to the address `to`.
unfoldable pub copy : (to size : ℕ) → (from bytes : ℕ → ℕ) → ℕ → ℕ
copy to size from bytes a = if leb to a && ltb a (to + size) then from (a - to) else bytes a

unfoldable pub pm_put : (ptr : ℕ) → (value : ℕ → ℕ) → (size : ℕ) → Heap → Heap
pm_put ptr value size s =
    let b = s.blocks (block_of ptr) in
    if b.size == size then record s { bytes = copy b.data_ size value s.bytes } else s

-- A free block is first read from pagefile.bin. The page is larger than the block: in C it goes over the
-- headers behind it too, which the model leaves.
unfoldable pub fetch : Os → Header → Heap → Call Heap
fetch os b s = if b.free == 0 then returns s else elim (os.loads b.page_num) [
  | none ↦ exit
  | some page ↦ returns (record s { bytes = copy b.data_ page_size page s.bytes })
]

-- The new heap and what the caller's buffer then holds.
unfoldable pub pm_get : Os → (ptr : ℕ) → (value : ℕ → ℕ) → (size : ℕ) → Heap → Call (Heap × (ℕ → ℕ))
pm_get os ptr value size s =
    let b = s.blocks (block_of ptr) in
    let read =
      and_then (fetch os b s) λ t. returns (t, copy 0 size (λ i. t.bytes (b.data_ + i)) value) in
    if b.size == size then read else returns (s, value)

-- `save_dirty_page`: a clean page is left alone.
unfoldable pub save_dirty_page : Os → (page_number : ℕ) → Heap → Call Heap
save_dirty_page os page_number s =
    if s.dirty page_number == 0
    then returns s
    else if os.saves page_number
    then returns (record s { dirty = update s.dirty page_number 0 })
    else exit

-- The pointers of a `vmTable_t`.
pub record Table : Type 0 where
  pub table : ℕ
  pub page_num_arr : ℕ
  pub frame_num_arr : ℕ
  pub entry_age_arr : ℕ

-- The allocations of `createVMtable`. `sizeof(vmTable_t)` is 40.
unfoldable pub create_arrays : Os → (fuel length table : ℕ) → Heap → Call (Heap × Option Table)
create_arrays os fuel length table s =
    and_then (thread_safe_malloc os fuel (4 * length) s) λ (s₁, pages).
      and_then (thread_safe_malloc os fuel (4 * length) s₁) λ (s₂, frames).
        and_then (thread_safe_malloc os fuel (4 * length) s₂) λ (s₃, ages).
          if (pages == null) || (frames == null) || (ages == null)
          then (and_then (thread_safe_free os table s₃) λ t. returns (t, none))
          else returns (
            s₃,
            some (record {
              table = table;
              page_num_arr = pages;
              frame_num_arr = frames;
              entry_age_arr = ages;
            }),
          )

unfoldable pub allocate_table : Os → (fuel length : ℕ) → Heap → Call (Heap × Option Table)
allocate_table os fuel length s = and_then (thread_safe_malloc os fuel 40 s) λ (s₁, table).
    if table == null then returns (s₁, none) else create_arrays os fuel length table s₁

-- `thread_safe_free` of each pointer that is not NULL.
unfoldable pub free_all : Os → List ℕ → Heap → Call Heap
free_all os [] s = returns s
free_all os (ptr ∷ ptrs) s = and_then (thread_safe_free os ptr s) (free_all os ptrs)

unfoldable pub free_vm_table : Os → Table → Heap → Call Heap
free_vm_table os t s =
    free_all os (t.page_num_arr ∷ t.frame_num_arr ∷ t.entry_age_arr ∷ t.table ∷ []) s

-- The loop of `dramAllocate` from row `i` on: each row is set to zero. A row that is NULL ends the
-- program, whatever is freed before.
unfoldable pub allocate_rows : Os → (fuel n block_size : ℕ) → Heap → Call (Heap × List ℕ)
allocate_rows os fuel zero block_size s = returns (s, [])
allocate_rows os fuel (suc n) block_size s =
    and_then (thread_safe_malloc os fuel (4 * block_size) s) λ (s₁, row).
      if row == null
      then exit
      else (and_then
          (allocate_rows os fuel n block_size
            (record s₁ { bytes = copy row (4 * block_size) (λ _. 0) s₁.bytes }))
          λ (s₂, rows). returns (s₂, row ∷ rows))

unfoldable pub dram_allocate : Os → (fuel frame_count block_size : ℕ) → Heap → Call (Heap × List ℕ)
dram_allocate os fuel frame_count block_size s =
    and_then (thread_safe_malloc os fuel (frame_count * 8) s)
      λ (s₁, temp). if temp == null then exit else allocate_rows os fuel frame_count block_size s₁
