-- ===== src/Tlb/Lru.antt =====
-- What `tlbLRUinsert` does to the entries, on each of its branches.
use computersystems_monorepo.Prelude.{
  ℕ, ◌+◌, ◌≤◌, ◌<◌, ◌≡◌, refl, ◌≢◌, ◌⊎◌, none, some, arith, ◌==◌, if◌then◌else◌, find_from,
  find_from-none, Bool-cases, inl, inr, update,
}
use computersystems_monorepo.Tlb.{
  Tlb, tlb_size, put_entry, Scan, scan_entries, get_oldest_entry, tlb_lru_insert,
}
use computersystems_monorepo.Tlb.Shift.{AllEntries, SameCounters, put_entry-AllEntries}
use computersystems_monorepo.Tlb.Search.{Scanned, scan_entries-Scanned, get_oldest_entry_lem}

module _ (page_number frame_number : ℕ) (s : Tlb) where
  module _ (used : page_number ≢ 0) where
    -- A page that the TLB holds gets age 0; the entries stay, and every other one ages by one.
    pub lru_hit :
        (i : ℕ)
        → find_from s.table.page_num_arr page_number 0 tlb_size ≡ some i
        → let s' = tlb_lru_insert page_number frame_number s in
          (s'.table.page_num_arr ≡ s.table.page_num_arr)
          × (s'.table.frame_num_arr ≡ s.table.frame_num_arr)
          × (s'.table.entry_age_arr i ≡ 0)
          × ((k : ℕ)
              → k < tlb_size
              → s.table.page_num_arr k ≢ page_number
              → s.table.page_num_arr k ≢ 0
              → s'.table.entry_age_arr k ≡ s.table.entry_age_arr k + 1)
    unfolding tlb_lru_insert
    lru_hit i hit =
        let h = scan_entries-Scanned s.table.page_num_arr s.table.entry_age_arr page_number used in
        (
          ground (arith, h.there),
          ground (arith, h.there),
          ground (arith, h.there, h.young i),
          λ k lt ne nz. ground (arith, h.there, h.older k),
        )

    -- A page that the TLB lacks goes into the first empty place, with age 0.
    pub lru_fill :
        (i : ℕ)
        → find_from s.table.page_num_arr page_number 0 tlb_size ≡ none
        → find_from s.table.page_num_arr 0 0 tlb_size ≡ some i
        → let s' = tlb_lru_insert page_number frame_number s in
          (s'.table.page_num_arr ≡ update s.table.page_num_arr i page_number)
          × (s'.table.frame_num_arr ≡ update s.table.frame_num_arr i frame_number)
          × (s'.table.entry_age_arr i ≡ 0)
    unfolding tlb_lru_insert put_entry
    lru_fill i absent spot =
        let h = scan_entries-Scanned s.table.page_num_arr s.table.entry_age_arr page_number used in
        (
          ground (arith, h.there, h.spot, h.index i),
          ground (arith, h.there, h.spot, h.index i),
          ground (arith, h.there, h.spot, h.index i),
        )

    -- With no empty place it takes the place of an entry that no entry is older than, and gets
    -- age 0; every other entry stays and ages by one.
    pub lru_replace :
        find_from s.table.page_num_arr page_number 0 tlb_size ≡ none
        → find_from s.table.page_num_arr 0 0 tlb_size ≡ none
        → let s' = tlb_lru_insert page_number frame_number s in
          (r : ℕ) × (r < tlb_size)
          × ((k : ℕ) → k < tlb_size → s.table.entry_age_arr k ≤ s.table.entry_age_arr r)
          × (s'.table.page_num_arr ≡ update s.table.page_num_arr r page_number)
          × (s'.table.frame_num_arr ≡ update s.table.frame_num_arr r frame_number)
          × ((k : ℕ)
              → k < tlb_size
              → s'.table.entry_age_arr k ≡ (if r == k then 0 else s.table.entry_age_arr k + 1))
    unfolding tlb_lru_insert put_entry
    lru_replace absent full = (
      oldest,
      o.0,
      (λ k lt. omega (arith, o.1 k lt, aged k lt, aged oldest o.0)),
      ground (arith, h.there, h.spot),
      ground (arith, h.there, h.spot),
      λ k lt. ground (arith, h.there, h.spot, aged k lt),
    )
      where
        scanned : Scan
        scanned = scan_entries s.table.page_num_arr s.table.entry_age_arr page_number

        h : Scanned s.table.page_num_arr s.table.entry_age_arr page_number tlb_size scanned
        h = scan_entries-Scanned s.table.page_num_arr s.table.entry_age_arr page_number used

        oldest : ℕ
        oldest = get_oldest_entry scanned.ages tlb_size

        o :
            (oldest < tlb_size)
            × ((k : ℕ) → k < tlb_size → scanned.ages k ≤ scanned.ages oldest)
            × ((k : ℕ) → k < oldest → scanned.ages k < scanned.ages oldest)
        o = get_oldest_entry_lem scanned.ages tlb_size (omega arith)

        aged : (k : ℕ) → k < tlb_size → scanned.ages k ≡ s.table.entry_age_arr k + 1
        aged k lt =
            h.older k lt
              (find_from-none s.table.page_num_arr page_number 0 tlb_size k absent (omega arith) lt)
              (find_from-none s.table.page_num_arr 0 0 tlb_size k full (omega arith) lt)

  lru_shape :
      let s' = tlb_lru_insert page_number frame_number s in
      ((s'.table.page_num_arr ≡ s.table.page_num_arr)
        × (s'.table.frame_num_arr ≡ s.table.frame_num_arr))
      ⊎ ((r : ℕ) × (s'.table.page_num_arr ≡ update s.table.page_num_arr r page_number)
          × (s'.table.frame_num_arr ≡ update s.table.frame_num_arr r frame_number))
  unfolding tlb_lru_insert put_entry
  lru_shape = elim (Bool-cases c.already_there) [
    | inl there ↦ inl (ground arith, ground arith)
    | inr absent ↦ elim (Bool-cases c.free_spot_found) [
      | inl spot ↦ inr (c.replace_index, ground arith, ground arith)
      | inr full ↦ inr (get_oldest_entry c.ages tlb_size, ground arith, ground arith)
    ]
  ]
    where
      c : Scan
      c = scan_entries s.table.page_num_arr s.table.entry_age_arr page_number

  -- The insertion invents no entry: what holds of the old entries and of the new one holds after.
  pub lru-AllEntries :
      (Q : ℕ → ℕ → Type 0)
      → AllEntries Q s.table
      → (page_number ≢ 0 → Q page_number frame_number)
      → AllEntries Q (tlb_lru_insert page_number frame_number s).table
  unfolding put_entry
  lru-AllEntries Q all new = elim lru_shape [
    | inl (pages, frames) ↦ λ k lt. rw (pages, frames) (all k lt)
    | inr (r, pages, frames) ↦ λ k lt.
        rw (pages, frames) (put_entry-AllEntries Q s.table all r page_number frame_number new k lt)
  ]

  pub lru-SameCounters : SameCounters s.table (tlb_lru_insert page_number frame_number s).table
  unfolding tlb_lru_insert put_entry
  lru-SameCounters = ground arith

  pub lru-next : (tlb_lru_insert page_number frame_number s).next_entry ≡ s.next_entry
  unfolding tlb_lru_insert
  lru-next = refl
