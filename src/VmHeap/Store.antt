-- ===== src/VmHeap/Store.antt =====
-- `pm_put` and `pm_get` on a block in use, `thread_safe_free`, and the clients on a fresh heap.
use computersystems_monorepo.Prelude.{
  ℕ, suc, ◌+◌, ◌-◌, ◌*◌, ◌^◌, ◌≤◌, ◌<◌, ◌≡◌, ◌≢◌, ◌∙◌, ap, refl, arith, true, ◌&&◌, ◌==◌, update,
  none, some, eq→==, ne→==, ==→eq, Bool-cases, inl, inr,
}
use computersystems_monorepo.VmHeap.{null, Os, Heap, returns, exit}
use computersystems_monorepo.VmHeap.Client.{
  block_of, copy, pm_put, fetch, pm_get, clean, remove_entry, forget, thread_safe_free,
  allocate_table, dram_allocate,
}
use computersystems_monorepo.VmHeap.Head.{Gives}
use computersystems_monorepo.VmHeap.Reuse.{first_call_null}

module _ (os : Os) (ptr size : ℕ) (value buffer : ℕ → ℕ) (s : Heap)
    (same : (s.blocks (block_of ptr)).size ≡ size) where
  abbrev stored : ℕ → ℕ
  stored = copy (s.blocks (block_of ptr)).data_ size value s.bytes

  put-eq : pm_put ptr value size s ≡ record s { bytes = stored }
  unfolding pm_put
  put-eq = rw (eq→== (s.blocks (block_of ptr)).size size same) refl

  abbrev got : ℕ → ℕ
  got = copy 0 size (λ i. stored ((s.blocks (block_of ptr)).data_ + i)) buffer

  get-eq :
      (s.blocks (block_of ptr)).free ≡ 0
      → pm_get os ptr buffer size (record s { bytes = stored })
        ≡ returns (record s { bytes = stored }, got)
  unfolding pm_get fetch
  get-eq used = rw (eq→== (s.blocks (block_of ptr)).size size same, used) refl

  got-value : (i : ℕ) → i < size → got i ≡ value i
  unfolding copy
  got-value i lt =
      let back : (s.blocks (block_of ptr)).data_ + i - (s.blocks (block_of ptr)).data_ ≡ i =
        omega arith in
      ground (arith, ap value back)

-- What is put into a block in use is got out of it, byte by byte, whatever the buffer held before.
pub pm_get-pm_put :
    (os : Os) (ptr size : ℕ) (value buffer : ℕ → ℕ) (s : Heap)
    → (s.blocks (block_of ptr)).size ≡ size
    → (s.blocks (block_of ptr)).free ≡ 0
    → (t : Heap) × (out : ℕ → ℕ) × (pm_get os ptr buffer size (pm_put ptr value size s)
        ≡ returns (t, out))
      × ((i : ℕ) → i < size → out i ≡ value i)
pm_get-pm_put os ptr size value buffer s same used = (
  record s { bytes = stored os ptr size value buffer s same },
  got os ptr size value buffer s same,
  ap (pm_get os ptr buffer size) (put-eq os ptr size value buffer s same)
      ∙ get-eq os ptr size value buffer s same used,
  got-value os ptr size value buffer s same,
)

-- The first table of a fresh heap cannot be had: `createVMtable` returns NULL.
pub allocate_table-fresh :
    (os : Os) (fuel length p : ℕ) (s : Heap)
    → Gives os
    → s.head ≡ null
    → os.area ≡ some p
    → p ≢ null
    → p < 2 ^ 62
    → (t : Heap) × (allocate_table os (suc fuel) length s ≡ returns (t, none))
unfolding allocate_table
allocate_table-fresh os fuel length p s gives empty area pos small =
    let (s₁, e, _, _) = first_call_null os fuel 40 p s gives empty area pos small (omega arith) in
    (s₁, rw e refl)

-- The simulated memory cannot be had from a fresh heap either: `dramAllocate` ends the program.
pub dram_allocate-fresh :
    (os : Os) (fuel frame_count block_size p : ℕ) (s : Heap)
    → Gives os
    → s.head ≡ null
    → os.area ≡ some p
    → p ≢ null
    → p < 2 ^ 62
    → frame_count ≤ 2 ^ 20
    → dram_allocate os (suc fuel) frame_count block_size s ≡ exit
unfolding dram_allocate
dram_allocate-fresh os fuel frame_count block_size p s gives empty area pos small few =
    let (s₁, e, _, _) =
      first_call_null os fuel (frame_count * 8) p s gives empty area pos small
        (omega (arith, few)) in
    rw e refl

clean-returns :
    (os : Os) (page_num : ℕ) (s : Heap)
    → (os.saves page_num && os.has_room) ≡ true
    → (t : Heap) × (clean os page_num s ≡ returns t)
      × (t.dirty page_num ≡ 0)
      × (t.blocks ≡ s.blocks)
      × (t.page_table ≡ s.page_table)
unfolding clean
clean-returns os page_num s saved = elim (Bool-cases (s.dirty page_num == 0)) [
  | inl clean_page ↦ (s, rw clean_page refl, ==→eq _ 0 clean_page, refl, refl)
  | inr dirty_page ↦ (
    record s { dirty = update s.dirty page_num 0 },
    rw (dirty_page, saved) refl,
    rw (eq→== page_num page_num refl) refl,
    refl,
    refl,
  )
]

-- Where the page file takes the page, `thread_safe_free` returns; the block is then free, its page is
-- clean, and its first entry is gone from the page table.
pub thread_safe_free_lem :
    (os : Os) (ptr : ℕ) (s : Heap)
    → ptr ≢ null
    → (os.saves (s.blocks (block_of ptr)).page_num && os.has_room) ≡ true
    → (t : Heap) × (thread_safe_free os ptr s ≡ returns t)
      × ((t.blocks (block_of ptr)).free ≡ 1)
      × (t.dirty (s.blocks (block_of ptr)).page_num ≡ 0)
      × (t.page_table ≡ remove_entry (s.blocks (block_of ptr)).data_ s.page_table)
unfolding thread_safe_free forget
thread_safe_free_lem os ptr s some_ptr saved =
    let b = block_of ptr in
    let (t, e, clean_page, blocks, entries) = clean-returns os (s.blocks b).page_num s saved in
    (
      forget b t,
      rw (ne→== ptr 0 some_ptr, e) refl,
      rw (eq→== b b refl) refl,
      clean_page,
      rw (blocks, entries) refl,
    )
