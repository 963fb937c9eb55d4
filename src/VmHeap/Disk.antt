-- ===== src/VmHeap/Disk.antt =====
-- The rest of PracticumV2/mymalloc.c: save_dirty_page_to_disk, load_page_from_disk, swap_page and
-- freeDRAM. What they ask of the system beside the heap is the parameter `Files`.
use computersystems_monorepo.Prelude.{
  ℕ, ◌+◌, ◌-◌, ◌*◌, ◌%◌, ◌^◌, Bool, ltb, ◌==◌, if◌then◌else◌, update, min, Option, none, some, List,
  [], ◌∷◌, ◌++◌, not,
}
use computersystems_monorepo.VmHeap.{
  null, page_size, Os, Heap, Call, returns, exit, and_then, thread_safe_malloc,
}
use computersystems_monorepo.VmHeap.Client.{copy, free_all}

-- The bytes of a file, by position.
pub record Content : Type 0 where
  pub size : ℕ
  pub byte : ℕ → ℕ

-- Whether DirtyFile.txt can be opened, what testinput.txt holds if it can, whether `munmap` works on a
-- page, and where `mmap` puts a new one.
pub record Files : Type 0 where
  pub dirty_file : Bool
  pub test_input : Option Content
  pub unmaps : ℕ → Bool
  pub maps : ℕ → Option ℕ

-- Where `fseek` leaves a file that was just opened: a product that is negative as an `int` is refused.
abbrev pub seek : (page_number : ℕ) → ℕ
seek page_number =
    let offset = page_number * page_size % 2 ^ 32 in if ltb offset (2 ^ 31) then offset else 0

-- What `save_dirty_page_to_disk` writes: the bytes from an address on, to a position of the file.
pub record Saved : Type 0 where
  pub position : ℕ
  pub address : ℕ

-- `page_table` has the pointers of the parameter `pageTable`, and `page_number` is the global.
unfoldable pub save_dirty_page_to_disk :
    Files → (page_table : ℕ → ℕ) → (page_number : ℕ) → Heap → Call (Heap × Saved)
save_dirty_page_to_disk files page_table page_number s =
    if files.dirty_file
    then returns (
      record s { dirty = update s.dirty page_number 0 },
      record { position = seek page_number; address = page_table page_number },
    )
    else exit

-- `fread` gives what the file has behind the position, up to a page.
unfoldable pub read_page : Files → (page_number page : ℕ) → Heap → Call (Heap × ℕ)
read_page files page_number page s = elim files.test_input [
  | none ↦ exit
  | some file ↦
      let at = seek page_number in
      let count = min page_size (file.size - at) in
      returns (record s { bytes = copy page count (λ i. file.byte (at + i)) s.bytes }, page)
]

-- The result is the new page.
unfoldable pub load_page_from_disk : Os → Files → (fuel page_number : ℕ) → Heap → Call (Heap × ℕ)
load_page_from_disk os files fuel page_number s =
    and_then (thread_safe_malloc os fuel page_size s)
      λ (s₁, page). if page == null then exit else read_page files page_number page s₁

-- A new page holds zeros. What was at the old place is not said where `mmap` puts the page elsewhere.
unfoldable pub swap_page : Files → (page_num : ℕ) → Heap → Call Heap
swap_page files page_num s =
    if not (files.unmaps page_num) then exit else elim (files.maps page_num) [
      | none ↦ exit
      | some page ↦ returns (record s { bytes = copy page page_size (λ i. 0) s.bytes })
    ]

-- `freeDRAM` of the array at `dram` with the pointers `rows`.
unfoldable pub free_dram : Os → (dram : ℕ) → (rows : List ℕ) → Heap → Call Heap
free_dram os dram rows s = if dram == null then returns s else free_all os (rows ++ dram ∷ []) s
