-- ===== src/Tlb/Insert.antt =====
-- What both replacement strategies have in common: the laws that a client of the TLB relies on.
use computersystems_monorepo.Prelude.{ℕ, ◌≤◌, ◌<◌, ◌≡◌, ◌≢◌, some, arith, find_from-some}
use computersystems_monorepo.Tlb.{Tlb, tlb_size, Algo, fifo, lru, insert, lookup}
use computersystems_monorepo.Tlb.Shift.{AllEntries, SameCounters}
use computersystems_monorepo.Tlb.Fifo.{fifo-AllEntries, fifo-SameCounters, fifo-next_le}
use computersystems_monorepo.Tlb.Lru.{lru-AllEntries, lru-SameCounters, lru-next}

-- A hit of `lookup` is an entry of the page.
pub lookup-some :
    (page_number i : ℕ) (s : Tlb)
    → lookup page_number s ≡ some i
    → (i < s.table.size) × (s.table.page_num_arr i ≡ page_number)
unfolding lookup
lookup-some page_number i s hit =
    let f = find_from-some s.table.page_num_arr page_number 0 s.table.size i hit in
    (omega (arith, f), f.2)

module _ (page_number frame_number : ℕ) (s : Tlb) (bound : s.next_entry ≤ tlb_size) where
  pub insert-AllEntries :
      (algo : Algo) (Q : ℕ → ℕ → Type 0)
      → AllEntries Q s.table
      → (page_number ≢ 0 → Q page_number frame_number)
      → AllEntries Q (insert algo page_number frame_number s).table
  unfolding insert
  insert-AllEntries fifo Q all new = fifo-AllEntries page_number frame_number s bound Q all new
  insert-AllEntries lru Q all new = lru-AllEntries page_number frame_number s Q all new

  pub insert-SameCounters :
      (algo : Algo) → SameCounters s.table (insert algo page_number frame_number s).table
  unfolding insert
  insert-SameCounters fifo = fifo-SameCounters page_number frame_number s bound
  insert-SameCounters lru = lru-SameCounters page_number frame_number s

  pub insert-next_le :
      (algo : Algo) → (insert algo page_number frame_number s).next_entry ≤ tlb_size
  unfolding insert
  insert-next_le fifo = fifo-next_le page_number frame_number s bound
  insert-next_le lru = omega (arith, lru-next page_number frame_number s, bound)
