-- ===== src/Tlb/Tests.antt =====
-- The theorems on the TLB at concrete tables.
use computersystems_monorepo.Prelude.{
  ℕ, ◌+◌, ◌≤◌, ◌<◌, ◌≡◌, refl, arith, ◌==◌, if◌then◌else◌, update, find_from,
}
use computersystems_monorepo.Tlb.{VmTable, Tlb, tlb_size, tlb_fifo_insert, tlb_lru_insert}
use computersystems_monorepo.Tlb.Fifo.{fifo_replace}
use computersystems_monorepo.Tlb.Lru.{lru_replace}

-- Place `i` holds page `i + 1` in frame `i`; the later places were used longer ago.
abbrev table : VmTable
table = record {
  page_num_arr = λ i. i + 1;
  frame_num_arr = λ i. i;
  entry_age_arr = λ i. i;
  size = 16;
  page_fault_count = 0;
  tlb_hit_count = 0;
  tlb_miss_count = 0;
}

abbrev full : Tlb
full = record { table = table; next_entry = 16 }

-- The place before the last, which held page 15, holds the new page.
fifo_replace_example :
    ((tlb_fifo_insert 99 7 full).table.page_num_arr 14 ≡ 99)
    × ((tlb_fifo_insert 99 7 full).table.frame_num_arr 14 ≡ 7)
unfolding find_from
fifo_replace_example = fifo_replace 99 7 full refl refl 14 (omega arith)

lru_replace_example :
    let s' = tlb_lru_insert 99 7 full in
    (r : ℕ) × (r < tlb_size)
    × ((k : ℕ) → k < tlb_size → k ≤ r)
    × (s'.table.page_num_arr ≡ update table.page_num_arr r 99)
    × (s'.table.frame_num_arr ≡ update table.frame_num_arr r 7)
    × ((k : ℕ) → k < tlb_size → s'.table.entry_age_arr k ≡ (if r == k then 0 else k + 1))
unfolding find_from
lru_replace_example = lru_replace 99 7 full (λ e. omega arith) refl refl
