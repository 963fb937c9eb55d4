-- ===== src/CustomHeap.antt =====
-- The heap of Practicum/vmemcustomheap.c, which only grows, and its pages, which share its memory.
pub mod Bounds
pub mod Tests
use computersystems_monorepo.Prelude.{
  ℕ, ◌+◌, ◌-◌, ◌*◌, ◌%◌, ◌^◌, Bool, true, false, Option, none, some, ◌&&◌, ltb, leb, if◌then◌else◌,
  List, [], ◌∷◌,
}

abbrev pub page_size : ℕ
page_size = 4096

abbrev pub num_pages : ℕ
num_pages = 16

-- The bytes are by address.
pub record State : Type 0 where
  pub physical_memory : ℕ
  pub heap_start : ℕ
  pub heap_end : ℕ
  pub next_alloc : ℕ
  pub bytes : ℕ → ℕ

-- `exit` is the call of `exit(1)`.
pub data Outcome (A : Type 0) : Type 0 where
  ok : A → Outcome A
  exit : Outcome A

-- `malloc` gives an address, or NULL; `open` and `ftruncate` work or fail.
unfoldable pub init_virtual_memory :
    (malloc : Option ℕ) → (opened resized : Bool) → (bytes : ℕ → ℕ) → Outcome State
init_virtual_memory none opened resized bytes = exit
init_virtual_memory (some physical_memory) opened resized bytes =
    if opened && resized
    then ok (record {
      physical_memory = physical_memory;
      heap_start = physical_memory;
      heap_end = physical_memory + page_size * num_pages;
      next_alloc = physical_memory;
      bytes = bytes;
    })
    else exit

-- The tests of the page number, an `int`: a negative one is 2 ^ 31 or more.
unfoldable pub read_page : (page_num : ℕ) → State → Outcome (ℕ → ℕ)
read_page page_num s =
    if ltb page_num num_pages
    then ok (λ i. s.bytes (s.physical_memory + page_size * page_num + i))
    else exit

unfoldable pub write_page : (page_num : ℕ) → (buf : ℕ → ℕ) → State → Outcome State
write_page page_num buf s =
    let to = s.physical_memory + page_size * page_num in
    if ltb page_num num_pages
    then ok (record s {
      bytes = λ a. if leb to a && ltb a (to + page_size) then buf (a - to) else s.bytes a;
    })
    else exit

unfoldable pub allocate : (size : ℕ) → State → Outcome (State × ℕ)
allocate size s =
    let next = (s.next_alloc + size) % 2 ^ 64 in
    if ltb s.heap_end next then exit else ok (record s { next_alloc = next }, s.next_alloc)

-- A row of calls of `allocate`, with the pointers that they return.
unfoldable pub allocate_all : List ℕ → State → Outcome (State × List ℕ)
allocate_all [] s = ok (s, [])
allocate_all (size ∷ sizes) s = elim (allocate size s) [
  | exit ↦ exit
  | ok (s', ptr) ↦ elim (allocate_all sizes s') [
    | exit ↦ exit
    | ok (s'', ptrs) ↦ ok (s'', ptr ∷ ptrs)
  ]
]
