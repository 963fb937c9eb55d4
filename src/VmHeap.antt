-- ===== src/VmHeap.antt =====
-- The heap of PracticumV2/mymalloc.c: init_heap, thread_safe_malloc, thread_safe_free, pm_put, pm_get,
-- and createVMtable and dramAllocate as its clients. Addresses are numbers, NULL is 0; the headers and
-- the bytes of the blocks are kept apart. What the system calls answer is the parameter `Os`.
pub mod Claim
pub mod Client
pub mod Disk
pub mod Head
pub mod Keeps
pub mod Layout
pub mod Reach
pub mod Reached
pub mod Reuse
pub mod SameList
pub mod Search
pub mod Store
pub mod Tests
pub mod TooLarge
use computersystems_monorepo.Prelude.{
  ℕ, zero, suc, ◌+◌, ◌-◌, ◌*◌, ◌/◌, ◌%◌, ◌^◌, Bool, true, false, not, ◌&&◌, ◌||◌, ltb, leb, ◌==◌,
  if◌then◌else◌, update, Option, none, some, List, [], ◌∷◌,
}

abbrev pub null : ℕ
null = 0

-- `PAGE_SIZE`, where it stands alone.
abbrev pub page_size : ℕ
page_size = 1024 * 1024 * 16

-- `NUM_PAGES`.
abbrev pub num_pages : ℕ
num_pages = 256

-- `-1` in an `int` of the page table.
abbrev pub absent : ℕ
absent = 2 ^ 32 - 1

-- `struct block`, 32 bytes.
pub record Header : Type 0 where
  pub size : ℕ
  pub free : ℕ
  pub page_num : ℕ
  pub next : ℕ
  pub data_ : ℕ

abbrev pub header_size : ℕ
header_size = 32

abbrev pub Headers : Type 0
Headers = ℕ → Header

-- `struct page_table_entry`; the linked list is a list.
pub record Entry : Type 0 where
  pub virtual_address : ℕ
  pub physical_address : ℕ
  pub dirty : ℕ
  pub referenced : ℕ

-- The answers of the system: the addresses that `mmap` gives for the heap and for later pages, where
-- it gives one, whether the calls on pagefile.bin and on the file system work, and what a read gives.
pub record Os : Type 0 where
  pub phys_mem : ℕ
  pub area : Option ℕ
  pub page : ℕ → Option ℕ
  pub saves : ℕ → Bool
  pub has_room : Bool
  pub loads : ℕ → Option (ℕ → ℕ)

pub record Heap : Type 0 where
  pub head : ℕ
  pub blocks : Headers
  pub bytes : ℕ → ℕ
  pub page_tab : ℕ → ℕ
  pub dirty : ℕ → ℕ
  pub page_number : ℕ
  pub page_table : List Entry

-- `exit` is a call of `exit`.
pub data Call (A : Type 0) : Type 0 where
  returns : A → Call A
  exit : Call A
  out_of_fuel : Call A

abbrev pub and_then : {A B : Type 0} → Call A → (A → Call B) → Call B
and_then (returns a) next = next a
and_then exit next = exit
and_then out_of_fuel next = out_of_fuel

-- `mmap` gives zero bytes.
abbrev pub zero_header : Header
zero_header = record { size = 0; free = 0; page_num = 0; next = null; data_ = null }

unfoldable pub init_heap : Os → Heap → Call Heap
init_heap os s = elim os.area [
  | none ↦ exit
  | some area ↦ returns (record s {
    head = area;
    blocks =
        update (λ _. zero_header) area
          (record zero_header { size = page_size - header_size; free = 1 });
    page_tab = λ i. if ltb i num_pages then absent else s.page_tab i;
  })
]

abbrev pub fits : ℕ → Header → Bool
fits n b = not (b.free == 0) && leb n b.size

-- The loop of `thread_safe_malloc`: the first block that fits, or NULL.
unfoldable pub search : (fuel n curr : ℕ) → Headers → Call ℕ
search zero n curr m = out_of_fuel
search (suc fuel) n curr m = elim (curr == null) [
  | true ↦ returns null
  | false ↦ elim (fits n (m curr)) [ true ↦ returns curr | false ↦ search fuel n (m curr).next m ]
]

-- The body of the test: a large block is split and keeps its flag and its data pointer; any other is
-- taken whole. The result is `curr->data` afterwards.
unfoldable pub claim : (n curr : ℕ) → Headers → Headers × ℕ
claim n curr m =
    let b = m curr in
    if ltb ((n + header_size) % 2 ^ 64) b.size
    then (let new = (curr + header_size + n) % 2 ^ 64 in
        let rest = record (m new) { next = b.next; free = 1; size = b.size - header_size - n } in
        (update (update m new rest) curr (record b { next = new; size = n }), b.data_))
    else (
      update m curr (record b { free = 0; data_ = (curr + header_size) % 2 ^ 64 }),
      (curr + header_size) % 2 ^ 64,
    )

-- `((uintptr_t)a - (uintptr_t)phys_mem) / PAGE_SIZE` as an `int`: the macro has no parentheses, so the
-- division is by its first factor only.
abbrev pub page_of : Os → ℕ → ℕ
page_of os a = (a + 2 ^ 64 - os.phys_mem) % 2 ^ 64 / 1024 * 1024 * 16 % 2 ^ 32

-- The loop that sets `referenced` of the first entry for an address.
unfoldable pub set_referenced : ℕ → List Entry → List Entry
set_referenced a [] = []
set_referenced a (e ∷ es) =
    let rest = set_referenced a es in
    if e.virtual_address == a then record e { referenced = 1 } ∷ es else e ∷ rest

-- A page of its own for a new pointer: the page table, and a copy of the bytes.
unfoldable pub add_page : Os → (result size page_num : ℕ) → Heap → Call Heap
add_page os result size page_num s = elim (os.page s.page_number) [
  | none ↦ exit
  | some page ↦ returns (record s {
    page_tab = update s.page_tab page_num s.page_number;
    page_number = (s.page_number + 1) % 2 ^ 32;
    dirty = update s.dirty page_num 0;
    page_table =
        record { virtual_address = result; physical_address = page; dirty = 0; referenced = 1 }
        ∷ s.page_table;
    bytes =
        λ a. if leb page a && ltb a (page + size) then s.bytes (result + (a - page)) else s.bytes a;
  })
]

-- `thread_safe_malloc` behind the search, for a pointer that is not NULL. A negative `page_num` fails
-- both tests; the first test lets numbers through that are no index of the page table.
unfoldable pub register : Os → (result size : ℕ) → Heap → Call Heap
register os result size s =
    let page_num = page_of os result in
    if ltb page_num page_size && not (s.page_tab page_num == absent)
    then returns (record s { page_table = set_referenced result s.page_table })
    else if ltb page_num num_pages
    then add_page os result size page_num s
    else returns s

-- The new headers and the result: NULL is returned as it is.
unfoldable pub hand_out : Os → (n : ℕ) → Headers × ℕ → Heap → Call (Heap × ℕ)
hand_out os n (blocks, result) s =
    let s' = record s { blocks = blocks } in
    elim (result == null) [
      | true ↦ returns (s', null)
      | false ↦ and_then (register os result n s') λ t. returns (t, result)
    ]

-- The call with the search done: `found` is the block, or NULL.
unfoldable pub serve : Os → (n found : ℕ) → Heap → Call (Heap × ℕ)
serve os n found s = elim (found == null) [
  | true ↦ returns (s, null)
  | false ↦ hand_out os n (claim n found s.blocks) s
]

unfoldable pub thread_safe_malloc : Os → (fuel n : ℕ) → Heap → Call (Heap × ℕ)
thread_safe_malloc os fuel n s =
    and_then (if s.head == null then init_heap os s else returns s)
      λ s₁. and_then (search fuel n s₁.head s₁.blocks) λ found. serve os n found s₁
