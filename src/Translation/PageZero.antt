-- ===== src/Translation/PageZero.antt =====
-- Page 0, whose number is also the mark of an empty place in the TLB.
use computersystems_monorepo.Prelude.{ℕ, ◌<◌, ◌≡◌, refl, arith, some, find_from, repeat_from}
use computersystems_monorepo.Tlb.{Algo, lookup, count_hit, create_vm_table}
use computersystems_monorepo.Tlb.Insert.{insert-SameCounters}
use computersystems_monorepo.Translation.{Store, translate_address, start, to_char}
use computersystems_monorepo.Translation.Correct.{locate-hit}

module _ (store : Store) (tlb_memory page_memory : ℕ → ℕ → ℕ) (buffer : ℕ → ℕ) where
  -- The search of a fresh TLB for page 0 stops at its first place.
  lookup-zero : lookup 0 (start tlb_memory page_memory buffer).tlb ≡ some 0
  unfolding lookup start create_vm_table find_from repeat_from
  lookup-zero = refl

  -- The first address of a run, if it lies in page 0 and the first frame number in the memory of the
  -- TLB is one of `dram`, counts as a TLB hit with no page fault, and its value is 0 whatever the
  -- backing store holds.
  pub page_zero_first :
      (algo : Algo) (offset : ℕ)
      → tlb_memory 1 0 < 256
      → let (s, t) = translate_address algo store 0 offset (start tlb_memory page_memory buffer) in
        (t.value ≡ 0)
        × (s.page_table.page_fault_count ≡ 0)
        × (s.tlb.table.tlb_hit_count ≡ 1)
        × (s.next_page ≡ 0)
  unfolding translate_address start create_vm_table to_char count_hit
  page_zero_first algo offset in_dram =
      let e =
        locate-hit store 0 0 (start tlb_memory page_memory buffer) lookup-zero
          (λ e. omega (arith, e, in_dram)) in
      let tlb = count_hit (start tlb_memory page_memory buffer).tlb in
      let same = insert-SameCounters 0 (tlb_memory 1 0) tlb (omega arith) algo in
      rw e (refl, refl, same.hits, refl)
