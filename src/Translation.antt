-- ===== src/Translation.antt =====
-- The address translation of PracticumV2/main.c: the TLB in front of the page table, physical
-- memory, and the file BACKING_STORE.bin. Global variables are the fields of `Vm`. An `int` that
-- only counts or indexes is a number; a word whose bits matter (an address, a stored byte) is its
-- bit pattern.
pub mod Address
pub mod Coherent
pub mod Correct
pub mod PageZero
pub mod Run
pub mod Statistics
mod Tests
use computersystems_monorepo.Prelude.{
  ℕ, ◌+◌, ◌-◌, ◌*◌, ◌/◌, ◌%◌, ◌^◌, min, bit_and, bit_or, none, some, List, [], ◌∷◌, ltb,
  if◌then◌else◌, ◌==◌, update, repeat_from, find_from,
}
use computersystems_monorepo.Tlb.{
  VmTable, create_vm_table, Tlb, tlb_size, Algo, insert, lookup, count_hit, count_miss,
}

abbrev pub frame_size : ℕ
frame_size = 256

abbrev pub page_mask : ℕ
page_mask = 0xFF00

abbrev pub offset_mask : ℕ
offset_mask = 0xFF

abbrev pub shift : ℕ
shift = 8

abbrev pub page_table_size : ℕ
page_table_size = 256

abbrev pub page_read_size : ℕ
page_read_size = 256

-- BACKING_STORE.bin.
pub record Store : Type 0 where
  pub size : ℕ
  pub byte : ℕ → ℕ

pub record Vm : Type 0 where
  pub tlb : Tlb
  pub page_table : VmTable
  pub dram : ℕ → ℕ → ℕ
  pub file_read_buffer : ℕ → ℕ
  pub next_page : ℕ
  pub next_frame : ℕ
  pub function_call_count : ℕ

-- `x >> k` of a 32-bit `int`: the sign bit is kept.
shift_right : ℕ → ℕ → ℕ
shift_right x k = if ltb x (2 ^ 31) then x / 2 ^ k else 2 ^ 32 - (2 ^ 32 - x + (2 ^ k - 1)) / 2 ^ k

pub get_page_number : (mask value shift : ℕ) → ℕ
unfolding shift_right
get_page_number mask value shift = shift_right (bit_and value mask) shift

pub get_offset : (mask value : ℕ) → ℕ
get_offset mask value = bit_and value mask

-- A `signed char` as an `int`, and back.
pub sign_extend : ℕ → ℕ
sign_extend b = if ltb b 128 then b else b + (2 ^ 32 - 256)

pub to_char : ℕ → ℕ
to_char w = w % 256

-- `fread` of a page at `pos`: a read past the end of the file leaves the rest of the buffer.
pub fread : Store → ℕ → (ℕ → ℕ) → ℕ → ℕ
fread store pos buffer i =
    if ltb i (min page_read_size (store.size - pos)) then store.byte (pos + i) else buffer i

-- The copy of the buffer into row `frame` of `dram`.
pub load_frame : ℕ → (ℕ → ℕ) → (ℕ → ℕ → ℕ) → ℕ → ℕ → ℕ
load_frame frame buffer dram =
    update dram frame
      (repeat_from (λ i row. update row i (sign_extend (buffer i))) 0 page_read_size (dram frame))

pub read_from_store : Store → ℕ → Vm → Vm
unfolding fread load_frame
read_from_store store page_number s =
    let buffer = fread store (page_number * page_read_size) s.file_read_buffer in
    record s {
      file_read_buffer = buffer;
      dram = load_frame s.next_frame buffer s.dram;
      page_table = record s.page_table {
        page_num_arr = update s.page_table.page_num_arr s.next_page page_number;
        frame_num_arr = update s.page_table.frame_num_arr s.next_page s.next_frame;
      };
      next_frame = s.next_frame + 1;
      next_page = s.next_page + 1;
    }

pub count_fault : Vm → Vm
count_fault s = record s {
  page_table = record s.page_table { page_fault_count = s.page_table.page_fault_count + 1 };
  function_call_count = s.function_call_count + 1;
}

-- A fault, and the frame it fills.
pub page_fault : Store → ℕ → Vm → Vm × ℕ
unfolding count_fault
page_fault store page_number s =
    let s' = read_from_store store page_number (count_fault s) in (s', s'.next_frame - 1)

-- `-1`: no frame.
abbrev pub no_frame : ℕ
no_frame = 2 ^ 32 - 1

-- The part of `translateAddress` after a TLB miss: the page table, and on a fault the store.
pub walk : Store → ℕ → Vm → Vm × ℕ
unfolding page_fault
walk store page_number s = elim (find_from s.page_table.page_num_arr page_number 0 s.next_page) [
  | some i ↦
      let frame_number = s.page_table.frame_num_arr i in
      if frame_number == no_frame then page_fault store page_number s else (s, frame_number)
  | none ↦ page_fault store page_number s
]

-- Behind a TLB hit the frame is tested once more, and that of a page in no frame is looked for like
-- behind a miss.
pub locate : Store → ℕ → Vm → Vm × ℕ
unfolding walk
locate store page_number s = elim (lookup page_number s.tlb) [
  | some i ↦
      let s' = record s { tlb = count_hit s.tlb } in
      let frame_number = s.tlb.table.frame_num_arr i in
      if frame_number == no_frame
      then walk store page_number (record s' { tlb = count_miss s'.tlb })
      else (s', frame_number)
  | none ↦ walk store page_number (record s { tlb = count_miss s.tlb })
]

-- What the simulator prints for an address.
pub record Translated : Type 0 where
  pub physical_address : ℕ
  pub value : ℕ

-- `dram` has 256 frames; C does not define what a frame past them holds, and here it is any row.
pub translate_address : Algo → Store → (page_number offset_number : ℕ) → Vm → Vm × Translated
unfolding locate
translate_address algo store page_number offset_number s =
    let (s₁, frame_number) = locate store page_number s in
    let s₂ = record s₁ { tlb = insert algo page_number frame_number s₁.tlb } in
    (
      s₂,
      record {
        physical_address = bit_or (frame_number * 2 ^ shift) offset_number;
        value = to_char (s₂.dram frame_number offset_number);
      },
    )

-- The loop of `main` over the addresses of the input file.
pub translate_all : Algo → Store → List ℕ → Vm → Vm × List Translated
translate_all algo store [] s = (s, [])
translate_all algo store (virtual_addr ∷ rest) s =
    let (s', t) =
      translate_address algo store (get_page_number page_mask virtual_addr shift)
        (get_offset offset_mask virtual_addr) s in
    let (s'', ts) = translate_all algo store rest s' in (s'', t ∷ ts)

-- The state in which `main` begins to translate.
pub start : (tlb_memory page_memory : ℕ → ℕ → ℕ) (buffer : ℕ → ℕ) → Vm
start tlb_memory page_memory buffer = record {
  tlb = record { table = create_vm_table tlb_memory tlb_size; next_entry = 0 };
  page_table = create_vm_table page_memory page_table_size;
  dram = λ _ _. 0;
  file_read_buffer = buffer;
  next_page = 0;
  next_frame = 0;
  function_call_count = 0;
}
