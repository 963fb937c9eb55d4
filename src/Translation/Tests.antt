-- ===== src/Translation/Tests.antt =====
-- Runs of the simulator on small inputs, and the theorems at them.
use computersystems_monorepo.Prelude.{
  ℕ, ◌+◌, ◌/◌, ◌%◌, ◌≡◌, refl, arith, List, [], ◌∷◌, map, repeat_from, find_from, ◌≤◌,
}
use computersystems_monorepo.Tlb.{
  fifo, lru, insert, tlb_fifo_insert, create_vm_table, lookup, count_hit, count_miss,
}
use computersystems_monorepo.Translation.{
  Store, Vm, translate_address, translate_all, start, get_page_number, get_offset, read_from_store,
}
use computersystems_monorepo.Translation.Coherent.{IsCoherent, Holds}
use computersystems_monorepo.Translation.Correct.{translate_address_lem, AreBytes}
use computersystems_monorepo.Translation.Run.{
  AreOutside, start-IsCoherent, AreValues, translate_all-keeps,
}
use computersystems_monorepo.Translation.Statistics.{translate_all-statistics}

abbrev store : Store
store = record { size = 65536; byte = λ i. i % 251 }

store-AreBytes : AreBytes store
store-AreBytes i = omega arith

abbrev junk : ℕ → ℕ → ℕ
junk _ i = i

abbrev machine : Vm
machine = start junk junk (λ _. 0)

-- The first lines of InputFile.txt, then the first one again.
abbrev addresses : List ℕ
addresses = 16916 ∷ 62493 ∷ 30198 ∷ 16916 ∷ []

addresses-AreOutside : AreOutside addresses
addresses-AreOutside =
    (λ e. omega arith, (λ e. omega arith, (λ e. omega arith, (λ e. omega arith, tt))))

-- The physical addresses that are printed: three new frames, then the first one again.
addresses_run :
    map (λ t. t.physical_address) (translate_all fifo store addresses machine).1
    ≡ 20 ∷ 285 ∷ 758 ∷ 20 ∷ []
unfolding translate_all translate_address get_page_number get_offset start create_vm_table
    repeat_from find_from insert tlb_fifo_insert lookup read_from_store count_hit count_miss
addresses_run = refl

translate_all-keeps_example :
    IsCoherent store (translate_all lru store addresses machine).0
    × AreValues store addresses (translate_all lru store addresses machine).1
translate_all-keeps_example =
    translate_all-keeps lru store (omega arith) addresses machine addresses-AreOutside
      (start-IsCoherent store junk junk (λ _. 0)) store-AreBytes

translate_address_lem_example :
    let (s', t) = translate_address fifo store 66 20 machine in
    (t.value ≡ 16916 % 251)
    × (t.physical_address % 256 ≡ 20)
    × Holds s'.page_table.page_num_arr s'.next_page 66 (t.physical_address / 256)
translate_address_lem_example =
    translate_address_lem fifo store (omega arith) 66 20 (omega arith) machine
      (start-IsCoherent store junk junk (λ _. 0)) store-AreBytes (λ e. omega arith) (omega arith)

translate_all-statistics_example :
    let s = (translate_all fifo store addresses machine).0 in
    (s.tlb.table.tlb_hit_count + s.tlb.table.tlb_miss_count ≡ 4)
    × (s.page_table.page_fault_count ≡ s.next_page)
    × (s.function_call_count ≡ s.next_page)
    × (s.next_frame ≡ s.next_page)
    × (s.page_table.page_fault_count ≤ s.tlb.table.tlb_miss_count)
    × (s.next_page ≤ 256)
translate_all-statistics_example =
    translate_all-statistics fifo store (omega arith) addresses junk junk (λ _. 0)
      addresses-AreOutside
