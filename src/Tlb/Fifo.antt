-- ===== src/Tlb/Fifo.antt =====
-- What `tlbFIFOinsert` does to the entries, on each of its branches.
use computersystems_monorepo.Prelude.{
  ℕ, ◌+◌, ◌-◌, ◌≤◌, ◌<◌, ◌≡◌, refl, ◌≢◌, ◌&&◌, none, some, arith, ltb, leb, ◌==◌, if◌then◌else◌,
  min, find_from, find_from-some, Option-cases, inl, inr, Bool-cases,
}
use computersystems_monorepo.Prelude.{ltb→lt}
use computersystems_monorepo.Tlb.{Tlb, tlb_size, put_entry, shift_entries, tlb_fifo_insert}
use computersystems_monorepo.Tlb.Shift.{
  AllEntries, SameCounters, shift_entries-Shifted, put_entry-AllEntries, Shifted-AllEntries,
}

module _ (page_number frame_number : ℕ) (s : Tlb) where
  -- A page that the TLB does not hold is added behind the entries while there is room.
  pub fifo_append :
      find_from s.table.page_num_arr page_number 0 s.next_entry ≡ none
      → s.next_entry < tlb_size
      → tlb_fifo_insert page_number frame_number s ≡ record {
        table = put_entry s.next_entry page_number frame_number s.table;
        next_entry = s.next_entry + 1;
      }
  unfolding tlb_fifo_insert
  fifo_append absent room = ground arith

  full_shape :
      find_from s.table.page_num_arr page_number 0 s.next_entry ≡ none
      → s.next_entry ≡ tlb_size
      → tlb_fifo_insert page_number frame_number s ≡ record {
        table = shift_entries 0 15 (put_entry 15 page_number frame_number s.table);
        next_entry = tlb_size;
      }
  unfolding tlb_fifo_insert
  full_shape absent full = ground arith

  hit_shape :
      (i : ℕ)
      → find_from s.table.page_num_arr page_number 0 s.next_entry ≡ some i
      → s.next_entry ≤ tlb_size
      → tlb_fifo_insert page_number frame_number s ≡ record {
        table =
            put_entry
              (min s.next_entry 15)
              page_number
              frame_number
              (shift_entries i (s.next_entry - 1 - i) s.table);
        next_entry = min (s.next_entry + 1) tlb_size;
      }
  unfolding tlb_fifo_insert
  hit_shape i hit bound = ground arith

  -- The entries after an insertion, in terms of those before: place `k` of the page numbers, then
  -- of the frame numbers.
  abbrev After : (ℕ → ℕ) → (ℕ → ℕ) → Type 0
  After pages frames =
      (k : ℕ)
      → k < tlb_size
      → ((tlb_fifo_insert page_number frame_number s).table.page_num_arr k ≡ pages k)
        × ((tlb_fifo_insert page_number frame_number s).table.frame_num_arr k ≡ frames k)

  -- On a full TLB that lacks the page, every entry moves one place to the front and the last two
  -- places hold the new page.
  pub fifo_replace :
      find_from s.table.page_num_arr page_number 0 s.next_entry ≡ none
      → s.next_entry ≡ tlb_size
      → After
          (λ k. if ltb k 14 then s.table.page_num_arr (k + 1) else page_number)
          (λ k. if ltb k 14 then s.table.frame_num_arr (k + 1) else frame_number)
  unfolding put_entry
  fifo_replace absent full k hk =
      let h = shift_entries-Shifted (put_entry 15 page_number frame_number s.table) 0 15 15 refl in
      rw (full_shape absent full) (ground (arith, h.pages k, h.frames k))

  -- A page that the TLB holds at `i` is moved to the end: behind the last entry while there is
  -- room, and in the last place of a full TLB.
  pub fifo_hit :
      (i : ℕ)
      → find_from s.table.page_num_arr page_number 0 s.next_entry ≡ some i
      → s.next_entry ≤ tlb_size
      → After
          (λ k.
            if k == min s.next_entry 15
            then page_number
            else if leb i k && ltb k (s.next_entry - 1)
            then s.table.page_num_arr (k + 1)
            else s.table.page_num_arr k)
          (λ k.
            if k == min s.next_entry 15
            then frame_number
            else if leb i k && ltb k (s.next_entry - 1)
            then s.table.frame_num_arr (k + 1)
            else s.table.frame_num_arr k)
  unfolding put_entry
  fifo_hit i hit bound k hk =
      let (_, below, _) = find_from-some s.table.page_num_arr page_number 0 s.next_entry i hit in
      let h =
        shift_entries-Shifted s.table i (s.next_entry - 1 - i) (s.next_entry - 1) (omega arith) in
      rw (hit_shape i hit bound) (ground (arith, h.pages k, h.frames k))

  module _ (bound : s.next_entry ≤ tlb_size) where
    -- The insertion invents no entry: what holds of the old entries and of the new one holds after.
    pub fifo-AllEntries :
        (Q : ℕ → ℕ → Type 0)
        → AllEntries Q s.table
        → (page_number ≢ 0 → Q page_number frame_number)
        → AllEntries Q (tlb_fifo_insert page_number frame_number s).table
    fifo-AllEntries Q all new =
        elim (Option-cases (find_from s.table.page_num_arr page_number 0 s.next_entry)) [
          | inl absent ↦ elim (Bool-cases (ltb s.next_entry tlb_size)) [
            | inl room ↦
                rw (fifo_append absent (ltb→lt _ _ room))
                  (put_entry-AllEntries Q s.table all s.next_entry page_number frame_number new)
            | inr full ↦ rw (full_shape absent (ground arith)) (
                Shifted-AllEntries Q (put_entry 15 page_number frame_number s.table)
                  (put_entry-AllEntries Q s.table all 15 page_number frame_number new) 0 15 _
                  (omega arith) (shift_entries-Shifted _ 0 15 15 refl))
          ]
          | inr (i, hit) ↦
              let found = find_from-some s.table.page_num_arr page_number 0 s.next_entry i hit in
              rw (hit_shape i hit bound) (
                put_entry-AllEntries Q (shift_entries i (s.next_entry - 1 - i) s.table)
                  (Shifted-AllEntries Q s.table all i (s.next_entry - 1) _ (omega (arith, found)) (
                    shift_entries-Shifted s.table i (s.next_entry - 1 - i) (s.next_entry - 1)
                      (omega (arith, found))))
                  (min s.next_entry 15) page_number frame_number new)
        ]

    pub fifo-SameCounters : SameCounters s.table (tlb_fifo_insert page_number frame_number s).table
    unfolding put_entry
    fifo-SameCounters =
        elim (Option-cases (find_from s.table.page_num_arr page_number 0 s.next_entry)) [
          | inl absent ↦ elim (Bool-cases (ltb s.next_entry tlb_size)) [
            | inl room ↦ rw (fifo_append absent (ltb→lt _ _ room)) (ground arith)
            | inr full ↦ rw (full_shape absent (ground arith)) (
                let h =
                  shift_entries-Shifted (put_entry 15 page_number frame_number s.table) 0 15 15
                    refl in
                ground (arith, h.same))
          ]
          | inr (i, hit) ↦
              let found = find_from-some s.table.page_num_arr page_number 0 s.next_entry i hit in
              let h =
                shift_entries-Shifted s.table i (s.next_entry - 1 - i) (s.next_entry - 1)
                  (omega (arith, found)) in
              rw (hit_shape i hit bound) (ground (arith, h.same))
        ]

    pub fifo-next_le : (tlb_fifo_insert page_number frame_number s).next_entry ≤ tlb_size
    unfolding tlb_fifo_insert
    fifo-next_le = ground arith
