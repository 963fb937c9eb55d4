-- ===== src/Tlb.antt =====
-- The table type of PracticumV2/mymalloc.h and the TLB of PracticumV2/main.c: insertion with FIFO and
-- with LRU replacement. `Tlb` holds the globals `tlbTable` and `nextTLBentry`.
pub mod Fifo
pub mod Insert
pub mod Lru
pub mod Search
pub mod Shift
mod Tests
use computersystems_monorepo.Prelude.{
  ℕ, ◌+◌, ◌-◌, ◌^◌, Bool, true, false, ◌&&◌, not, Option, none, some, ltb, ◌==◌, if◌then◌else◌,
  update, repeat_from, find_from,
}

abbrev pub tlb_size : ℕ
tlb_size = 16

-- `vmTable_t`, for the TLB and for the page table.
pub record VmTable : Type 0 where
  pub page_num_arr : ℕ → ℕ
  pub frame_num_arr : ℕ → ℕ
  pub entry_age_arr : ℕ → ℕ
  pub size : ℕ
  pub page_fault_count : ℕ
  pub tlb_hit_count : ℕ
  pub tlb_miss_count : ℕ

-- `createVMtable` once its four allocations have succeeded: it clears the page numbers and the
-- counters. `memory` is what the allocator handed out for the three arrays.
unfoldable pub create_vm_table : (memory : ℕ → ℕ → ℕ) → ℕ → VmTable
create_vm_table memory length = record {
  page_num_arr = repeat_from (λ i arr. update arr i 0) 0 length (memory 0);
  frame_num_arr = memory 1;
  entry_age_arr = memory 2;
  size = length;
  page_fault_count = 0;
  tlb_hit_count = 0;
  tlb_miss_count = 0;
}

-- An entry of the TLB is its page and its frame.
pub put_entry : ℕ → (page_number frame_number : ℕ) → VmTable → VmTable
put_entry i page_number frame_number t = record t {
  page_num_arr = update t.page_num_arr i page_number;
  frame_num_arr = update t.frame_num_arr i frame_number;
}

-- `for (i = first; i < first + n; i++)` entry `i + 1` moves to place `i`.
pub shift_entries : (first n : ℕ) → VmTable → VmTable
shift_entries first n t =
    repeat_from (λ i u. put_entry i (u.page_num_arr (i + 1)) (u.frame_num_arr (i + 1)) u) first n t

-- `tlbTable` and `nextTLBentry`.
pub record Tlb : Type 0 where
  pub table : VmTable
  pub next_entry : ℕ

unfoldable pub tlb_fifo_insert : (page_number frame_number : ℕ) → Tlb → Tlb
unfolding put_entry shift_entries
tlb_fifo_insert page_number frame_number s =
    let next = s.next_entry in
    let last = if ltb next tlb_size then next else next - 1 in
    record s {
      table = elim (find_from s.table.page_num_arr page_number 0 next) [
        | none ↦
            if ltb next tlb_size
            then put_entry next page_number frame_number s.table
            else shift_entries 0 (tlb_size - 1)
                (put_entry (next - 1) page_number frame_number s.table)
        | some i ↦ put_entry last page_number frame_number (shift_entries i (next - 1 - i) s.table)
      ];
      next_entry = if ltb next tlb_size then next + 1 else next;
    }

-- The locals of the first loop of `tlbLRUinsert`.
pub record Scan : Type 0 where
  pub ages : ℕ → ℕ
  pub free_spot_found : Bool
  pub already_there : Bool
  pub replace_index : ℕ

pub scan_step : (pages : ℕ → ℕ) → (page_number i : ℕ) → Scan → Scan
scan_step pages page_number i c =
    if not (pages i == page_number) && not (pages i == 0)
    then record c { ages = update c.ages i (c.ages i + 1) }
    else if not (pages i == page_number) && (pages i == 0)
    then (if c.free_spot_found then c else record c { replace_index = i; free_spot_found = true })
    else if c.already_there
    then c
    else record c { ages = update c.ages i 0; already_there = true }

-- `replaceIndex` starts at -1, as a bit pattern.
pub scan_entries : (pages ages : ℕ → ℕ) → ℕ → Scan
scan_entries pages ages page_number = repeat_from (scan_step pages page_number) 0 tlb_size (record {
  ages = ages;
  free_spot_found = false;
  already_there = false;
  replace_index = 2 ^ 32 - 1;
})

-- The state of the loop of `getOldestEntry` is `(index, max)`.
pub older : (ages : ℕ → ℕ) → ℕ → ℕ × ℕ → ℕ × ℕ
older ages i (index, max) = if ltb max (ages i) then (i, ages i) else (index, max)

pub get_oldest_entry : (ages : ℕ → ℕ) → ℕ → ℕ
unfolding older
get_oldest_entry ages size = (repeat_from (older ages) 1 (size - 1) (0, ages 0)).0

pub replace_entry : (i page_number frame_number : ℕ) → VmTable → VmTable
unfolding put_entry
replace_entry i page_number frame_number t = record (put_entry i page_number frame_number t) {
  entry_age_arr = update t.entry_age_arr i 0;
}

unfoldable pub tlb_lru_insert : (page_number frame_number : ℕ) → Tlb → Tlb
unfolding scan_step scan_entries replace_entry get_oldest_entry
tlb_lru_insert page_number frame_number s =
    let c = scan_entries s.table.page_num_arr s.table.entry_age_arr page_number in
    let aged = record s.table { entry_age_arr = c.ages } in
    record s {
      table =
          if c.already_there
          then aged
          else if c.free_spot_found
          then replace_entry c.replace_index page_number frame_number aged
          else replace_entry (get_oldest_entry c.ages tlb_size) page_number frame_number aged;
    }

-- The menu's choice, '1' or '2'.
pub data Algo : Type 0 where
  fifo lru : Algo

unfoldable pub insert : Algo → (page_number frame_number : ℕ) → Tlb → Tlb
insert fifo page_number frame_number s = tlb_fifo_insert page_number frame_number s
insert lru page_number frame_number s = tlb_lru_insert page_number frame_number s

unfoldable pub count_hit : Tlb → Tlb
count_hit s = record s { table = record s.table { tlb_hit_count = s.table.tlb_hit_count + 1 } }

unfoldable pub count_miss : Tlb → Tlb
count_miss s = record s { table = record s.table { tlb_miss_count = s.table.tlb_miss_count + 1 } }

-- The search of `translateAddress` through the whole table.
unfoldable pub lookup : ℕ → Tlb → Option ℕ
lookup page_number s = find_from s.table.page_num_arr page_number 0 s.table.size
