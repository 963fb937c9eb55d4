-- ===== src/Translation/Statistics.antt =====
-- The counters that `main` prints.
use computersystems_monorepo.Prelude.{
  ℕ, ◌+◌, ◌≤◌, ◌<◌, ◌≡◌, ◌≢◌, arith, List, [], ◌∷◌, length, Option-cases, inl, inr, find_from,
}
use computersystems_monorepo.Tlb.{Algo, lookup, count_hit, count_miss, create_vm_table}
use computersystems_monorepo.Tlb.Insert.{insert-SameCounters}
use computersystems_monorepo.Translation.{
  Vm, Store, read_from_store, count_fault, walk, locate, translate_address, translate_all, start,
  get_page_number, get_offset, page_mask, offset_mask, shift,
}
use computersystems_monorepo.Translation.Address.{address_split, get_page_number-eq}
use computersystems_monorepo.Translation.Coherent.{
  IsCoherent, IsWhole, next_page-le, entry-framed, walk-hit, walk-fault,
}
use computersystems_monorepo.Translation.Correct.{
  translate_address-IsCoherent, locate-hit, hit-framed, locate-miss, locate-Located,
}
use computersystems_monorepo.Translation.Run.{AreOutside, start-IsCoherent}

-- From `s` to `s'` there were `n` translations: each a hit or a miss, and each fault a miss that
-- filled one entry of the page table and read the store once.
pub record Counted (n : ℕ) (s s' : Vm) : Type 0 where
  pub translated :
      s'.tlb.table.tlb_hit_count + s'.tlb.table.tlb_miss_count
      ≡ s.tlb.table.tlb_hit_count + s.tlb.table.tlb_miss_count + n
  pub faults :
      s'.page_table.page_fault_count + s.next_page ≡ s.page_table.page_fault_count + s'.next_page
  pub reads : s'.function_call_count + s.next_page ≡ s.function_call_count + s'.next_page
  pub missed :
      s'.page_table.page_fault_count + s.tlb.table.tlb_miss_count
      ≤ s.page_table.page_fault_count + s'.tlb.table.tlb_miss_count

-- After a miss has been counted.
walk-Counted :
    (store : Store) (page : ℕ) (s : Vm)
    → IsCoherent store s
    → Counted 1 s (walk store page (record s { tlb = count_miss s.tlb })).0
unfolding count_miss count_fault read_from_store
walk-Counted store page s h =
    elim (Option-cases (find_from s.page_table.page_num_arr page 0 s.next_page)) [
      | inl fresh ↦
          rw (walk-fault store page (record s { tlb = count_miss s.tlb }) fresh) (omega arith)
      | inr (i, found) ↦
          rw
            (walk-hit store page i (record s { tlb = count_miss s.tlb }) found
              (entry-framed store page i s h found))
            (omega arith)
    ]

locate-Counted :
    (store : Store) (page : ℕ) (s : Vm)
    → IsCoherent store s
    → page ≢ 0
    → Counted 1 s (locate store page s).0
unfolding count_hit
locate-Counted store page s h used = elim (Option-cases (lookup page s.tlb)) [
  | inl miss ↦ rw (locate-miss store page s miss) (walk-Counted store page s h)
  | inr (i, hit) ↦
      rw (locate-hit store page i s hit (hit-framed store page i s h used hit)) (omega arith)
]

module _ (algo : Algo) (store : Store) (whole : IsWhole store) where
  translate_address-Counted :
      (page offset : ℕ) (s : Vm)
      → page < 256
      → page ≢ 0
      → IsCoherent store s
      → Counted 1 s (translate_address algo store page offset s).0
  unfolding translate_address
  translate_address-Counted page offset s small used h =
      let (s', frame) = locate store page s in
      let (kept, _) = locate-Located store whole page small s h in
      let same = insert-SameCounters page frame s'.tlb kept.next_entry algo in
      omega (arith, locate-Counted store page s h used, same)

  translate_all-Counted :
      (addresses : List ℕ) (s : Vm)
      → AreOutside addresses
      → IsCoherent store s
      → let s' = (translate_all algo store addresses s).0 in
        Counted (length addresses) s s' × IsCoherent store s'
  unfolding translate_all
  translate_all-Counted [] s outside h = (omega arith, h)
  translate_all-Counted (v ∷ vs) s outside h =
      let page = get_page_number page_mask v shift in
      let offset = get_offset offset_mask v in
      let a = address_split v in
      let kept = translate_address-IsCoherent algo store whole page offset a.0 s h in
      let first =
        translate_address-Counted page offset s a.0
          (λ z. outside.0 (omega (arith, z, get_page_number-eq v))) h in
      let (rest, last) =
        translate_all-Counted vs (translate_address algo store page offset s).0 outside.1 kept in
      (omega (arith, first, rest), last)

  -- The statistics of a run from the start over addresses outside page 0, with a store that has its
  -- 65536 bytes: hits and misses add up to the number of addresses, and
  -- the page faults are the entries of the page table and the reads of the store, no more than the
  -- misses and never more than the 256 places that the page table and memory have.
  pub translate_all-statistics :
      (addresses : List ℕ) (tlb_memory page_memory : ℕ → ℕ → ℕ) (buffer : ℕ → ℕ)
      → AreOutside addresses
      → let s = (translate_all algo store addresses (start tlb_memory page_memory buffer)).0 in
        (s.tlb.table.tlb_hit_count + s.tlb.table.tlb_miss_count ≡ length addresses)
        × (s.page_table.page_fault_count ≡ s.next_page)
        × (s.function_call_count ≡ s.next_page)
        × (s.next_frame ≡ s.next_page)
        × (s.page_table.page_fault_count ≤ s.tlb.table.tlb_miss_count)
        × (s.next_page ≤ 256)
  unfolding start create_vm_table
  translate_all-statistics addresses tlb_memory page_memory buffer outside =
      let s = start tlb_memory page_memory buffer in
      let (counted, last) =
        translate_all-Counted addresses s outside
          (start-IsCoherent store tlb_memory page_memory buffer) in
      omega (arith, counted, last.frames, next_page-le store _ last)
