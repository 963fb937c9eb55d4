-- ===== src/VmHeap/TooLarge.antt =====
-- A page of PAGE_SIZE bytes, which the heap, of PAGE_SIZE bytes with its headers, does not have.
use computersystems_monorepo.Prelude.{
  ℕ, zero, suc, ◌≤◌, ◌<◌, ◌≡◌, ◌≢◌, ◌⊎◌, ◌∙◌, refl, arith, false, inl, inr, eq→==, ne→==, none,
  some, Option-cases,
}
use computersystems_monorepo.VmHeap.{
  null, page_size, Header, Headers, Os, Heap, returns, exit, search, serve, thread_safe_malloc,
  init_heap, fits,
}
use computersystems_monorepo.VmHeap.Head.{malloc-serve}
use computersystems_monorepo.VmHeap.Reuse.{begun, malloc-begun}
use computersystems_monorepo.VmHeap.Disk.{Files, load_page_from_disk}

-- The list of blocks from `curr` on ends within `fuel` blocks, and all of them are below a page.
abbrev pub IsSmall : (fuel curr : ℕ) → Headers → Type 0
IsSmall zero curr m = ⊥
IsSmall (suc fuel) curr m =
    (curr ≡ null) ⊎ ((curr ≢ null) × ((m curr).size < page_size) × IsSmall fuel (m curr).next m)

small-fits : (b : Header) → b.size < page_size → fits page_size b ≡ false
small-fits b below = ground arith

-- No block of such a list fits.
search-IsSmall :
    (fuel curr : ℕ) (m : Headers)
    → IsSmall fuel curr m
    → search fuel page_size curr m ≡ returns null
unfolding search
search-IsSmall zero curr m small = absurd small
search-IsSmall (suc fuel) curr m (inl end) = rw (eq→== curr null end, search) refl
search-IsSmall (suc fuel) curr m (inr (more, below, small)) =
    rw (ne→== curr null more, search, small-fits (m curr) below)
      (search-IsSmall fuel (m curr).next m small)

-- The heap that a call of the allocator starts from.
abbrev pub IsReady : (fuel : ℕ) → Heap → Type 0
IsReady fuel s = ((s.head ≡ null) × (2 ≤ fuel)) ⊎ ((s.head ≢ null) × IsSmall fuel s.head s.blocks)

serve-none : (os : Os) (n : ℕ) (s : Heap) → serve os n null s ≡ returns (s, null)
unfolding serve
serve-none os n s = refl

module _ (os : Os) where
  malloc-IsSmall :
      (fuel : ℕ) (s : Heap)
      → s.head ≢ null
      → IsSmall fuel s.head s.blocks
      → thread_safe_malloc os fuel page_size s ≡ returns (s, null)
  malloc-IsSmall fuel s in_use small =
      malloc-serve os fuel page_size null s in_use (search-IsSmall fuel s.head s.blocks small)
      ∙ serve-none os page_size s

  begun-IsSmall : (fuel p : ℕ) (s : Heap) → 2 ≤ fuel → p ≢ null → IsSmall fuel p (begun p s).blocks
  begun-IsSmall zero p s enough pos = absurd (omega (arith, enough))
  begun-IsSmall (suc zero) p s enough pos = absurd (omega (arith, enough))
  begun-IsSmall (suc (suc fuel)) p s enough pos =
      inr (pos, rw (eq→== p p refl) (omega arith), rw (eq→== p p refl) (inl refl))

  malloc-fails :
      (fuel p : ℕ) (s : Heap)
      → s.head ≡ null
      → 2 ≤ fuel
      → os.area ≡ some p
      → p ≢ null
      → thread_safe_malloc os fuel page_size s ≡ returns (begun p s, null)
  malloc-fails fuel p s empty enough area pos =
      malloc-begun os fuel page_size p s empty area pos
      ∙ malloc-IsSmall fuel (begun p s) pos (begun-IsSmall fuel p s enough pos)

  pub malloc-exits :
      (fuel n : ℕ) (s : Heap)
      → s.head ≡ null
      → os.area ≡ none
      → thread_safe_malloc os fuel n s ≡ exit
  unfolding thread_safe_malloc init_heap
  malloc-exits fuel n s empty area = rw (empty, area) refl

  module _ (files : Files) (fuel page_number : ℕ) (s : Heap) where
    load-null :
        (t : Heap)
        → thread_safe_malloc os fuel page_size s ≡ returns (t, null)
        → load_page_from_disk os files fuel page_number s ≡ exit
    unfolding load_page_from_disk
    load-null t e = rw e refl

    load-exit :
        thread_safe_malloc os fuel page_size s ≡ exit
        → load_page_from_disk os files fuel page_number s ≡ exit
    unfolding load_page_from_disk
    load-exit e = rw e refl

    -- Where the heap was not set up, or all blocks of its list are below a page, load_page_from_disk
    -- ends the program, if mmap does not give NULL for an area: the heap has no whole page.
    pub load_page_from_disk-exits :
        ((p : ℕ) → os.area ≡ some p → p ≢ null)
        → IsReady fuel s
        → load_page_from_disk os files fuel page_number s ≡ exit
    load_page_from_disk-exits no_null (inr (in_use, small)) =
        load-null s (malloc-IsSmall fuel s in_use small)
    load_page_from_disk-exits no_null (inl (empty, enough)) = elim (Option-cases os.area) [
      | inl none_there ↦ load-exit (malloc-exits fuel page_size s empty none_there)
      | inr (p, area) ↦
          load-null (begun p s) (malloc-fails fuel p s empty enough area (no_null p area))
    ]
