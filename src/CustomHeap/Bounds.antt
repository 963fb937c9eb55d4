-- ===== src/CustomHeap/Bounds.antt =====
-- The blocks of the heap lie behind each other and inside of it.
use computersystems_monorepo.Prelude.{
  ℕ, ◌+◌, ◌-◌, ◌*◌, ◌%◌, ◌^◌, ◌≤◌, ◌<◌, ◌≡◌, ap, ◌&&◌, refl, arith, true, some, ltb, leb,
  if◌then◌else◌, List, [], ◌∷◌, Bool-cases, inl, inr, ltb→lt, le→ltb, lt→ltb,
}
use computersystems_monorepo.CustomHeap.{
  page_size, num_pages, State, ok, exit, init_virtual_memory, write_page, allocate, allocate_all,
}

abbrev pub sum : List ℕ → ℕ
sum [] = 0
sum (size ∷ sizes) = size + sum sizes

-- The blocks from `a` on, each behind the other.
abbrev pub blocks_from : (a : ℕ) → List ℕ → List ℕ
blocks_from a [] = []
blocks_from a (size ∷ sizes) = a ∷ blocks_from (a + size) sizes

module _ (size : ℕ) (s : State) (small : s.next_alloc + size < 2 ^ 64) where
  allocate-ok :
      s.next_alloc + size ≤ s.heap_end
      → allocate size s ≡ ok (record s { next_alloc = s.next_alloc + size }, s.next_alloc)
  unfolding allocate
  allocate-ok room =
      let next : (s.next_alloc + size) % 2 ^ 64 ≡ s.next_alloc + size = omega arith in
      rw (next, le→ltb s.heap_end (s.next_alloc + size) room) refl

  allocate-exit : s.heap_end < s.next_alloc + size → allocate size s ≡ exit
  unfolding allocate
  allocate-exit full =
      let next : (s.next_alloc + size) % 2 ^ 64 ≡ s.next_alloc + size = omega arith in
      rw (next, lt→ltb s.heap_end (s.next_alloc + size) full) refl

-- Where no address wraps, a row of allocations succeeds exactly if the sizes together fit; the blocks
-- then lie behind each other, so that no two overlap, and the heap has moved by the sizes together.
-- Otherwise the program ends.
pub allocate_all-sum :
    (sizes : List ℕ) (s : State)
    → s.next_alloc + sum sizes < 2 ^ 64
    → s.next_alloc ≤ s.heap_end
    → allocate_all sizes s ≡ (
        if ltb s.heap_end (s.next_alloc + sum sizes)
        then exit
        else ok
            (record s { next_alloc = s.next_alloc + sum sizes }, blocks_from s.next_alloc sizes))
unfolding allocate_all
allocate_all-sum [] s small inside =
    let same : s.next_alloc + 0 ≡ s.next_alloc = omega arith in
    rw (same, le→ltb s.heap_end s.next_alloc inside) refl
allocate_all-sum (size ∷ sizes) s small inside =
    elim (Bool-cases (ltb s.heap_end (s.next_alloc + size))) [
      | inl full ↦
          let over = ltb→lt s.heap_end (s.next_alloc + size) full in
          rw
            (
              allocate-exit size s (omega (arith, small)) over,
              allocate_all,
              lt→ltb s.heap_end (s.next_alloc + (size + sum sizes)) (omega (arith, over)),
            )
            refl
      | inr room ↦
          let fits : s.next_alloc + size ≤ s.heap_end = ground arith in
          let s' = record s { next_alloc = s.next_alloc + size } in
          let rest = allocate_all-sum sizes s' (omega (arith, small)) fits in
          let same : s.next_alloc + size + sum sizes ≡ s.next_alloc + (size + sum sizes) =
            omega arith in
          elim (Bool-cases (ltb s.heap_end (s.next_alloc + (size + sum sizes)))) [
            | inl over ↦
                rw (allocate-ok size s (omega (arith, small)) fits, allocate_all, rest, same, over)
                  refl
            | inr under ↦
                rw (allocate-ok size s (omega (arith, small)) fits, allocate_all, rest, same, under)
                  refl
          ]
    ]

-- The heap that `init_virtual_memory` makes starts at page 0: a page 0 that was written before the first allocation of up to a page
-- stands in the block that is given out.
pub page_zero-shared :
    (size p : ℕ) (buf bytes : ℕ → ℕ)
    → p + page_size * num_pages < 2 ^ 64
    → size ≤ page_size
    → (s : State) × (init_virtual_memory (some p) true true bytes ≡ ok s)
      × (s₁ : State) × (write_page 0 buf s ≡ ok s₁)
      × (s₂ : State) × (allocate size s₁ ≡ ok (s₂, p))
      × ((i : ℕ) → i < size → s₂.bytes (p + i) ≡ buf i)
unfolding init_virtual_memory write_page
page_zero-shared size p buf bytes small fits =
    let s : State = record {
      physical_memory = p;
      heap_start = p;
      heap_end = p + page_size * num_pages;
      next_alloc = p;
      bytes = bytes;
    } in
    let s₁ : State = record s {
      bytes = λ a.
          if leb (p + page_size * 0) a && ltb a (p + page_size * 0 + page_size)
          then buf (a - (p + page_size * 0))
          else bytes a;
    } in
    (
      s,
      refl,
      s₁,
      refl,
      record s₁ { next_alloc = p + size },
      allocate-ok size s₁ (omega (arith, small, fits)) (omega (arith, small, fits)),
      λ i lt.
          let back : p + i - (p + page_size * 0) ≡ i = omega arith in
          ground (arith, lt, fits, ap buf back),
    )
