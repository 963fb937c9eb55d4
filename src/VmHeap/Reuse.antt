-- ===== src/VmHeap/Reuse.antt =====
-- Two calls of thread_safe_malloc for the same size, and the first call on a fresh heap.
use computersystems_monorepo.Prelude.{
  ℕ, suc, ◌+◌, ◌-◌, ◌^◌, ◌<◌, ◌≡◌, ◌≢◌, ◌∙◌, ap, refl, arith, ltb, if◌then◌else◌, update, some,
  eq→==, ne→==,
}
use computersystems_monorepo.VmHeap.{
  null, page_size, num_pages, absent, header_size, Os, Heap, returns, zero_header, init_heap,
  thread_safe_malloc,
}
use computersystems_monorepo.VmHeap.Head.{Gives, split_blocks, split_null, split_some, take_some}

-- Where the first block is free and large, and was in use before, two calls for one size return the
-- same pointer: the first splits the block and gives it out, but leaves it free.
pub same_pointer_twice :
    (os : Os) (fuel n : ℕ) (s : Heap)
    → Gives os
    → s.head ≢ null
    → (s.blocks s.head).free ≢ 0
    → (s.blocks s.head).data_ ≡ s.head + header_size
    → n + header_size < (s.blocks s.head).size
    → s.head + (s.blocks s.head).size < 2 ^ 63
    → (s₁ : Heap) × (thread_safe_malloc os (suc fuel) n s ≡ returns (s₁, s.head + header_size))
      × (s₂ : Heap) × (thread_safe_malloc os (suc fuel) n s₁ ≡ returns (s₂, s.head + header_size))
same_pointer_twice os fuel n s gives pos free used room small =
    let p = s.head in
    let (s₁, e, (head, blocks)) =
      split_some os fuel n p s refl pos free small room (λ z. omega (arith, used, z)) gives in
    let block : s₁.blocks p ≡ record (s.blocks p) { next = p + header_size + n; size = n } =
      rw (blocks, eq→== p p refl) refl in
    let (s₂, f) =
      take_some os fuel n p s₁ head pos (rw block free) (rw block (omega (arith, room, small)))
        (rw block refl) gives in
    (s₁, e ∙ ap (λ d. returns (s₁, d)) used, s₂, f)

-- The heap behind `init_heap`.
abbrev pub begun : (area : ℕ) → Heap → Heap
begun area s = record s {
  head = area;
  blocks =
      update (λ _. zero_header) area
        (record zero_header { size = page_size - header_size; free = 1 });
  page_tab = λ i. if ltb i num_pages then absent else s.page_tab i;
}

pub malloc-begun :
    (os : Os) (fuel n p : ℕ) (s : Heap)
    → s.head ≡ null
    → os.area ≡ some p
    → p ≢ null
    → thread_safe_malloc os fuel n s ≡ thread_safe_malloc os fuel n (begun p s)
unfolding thread_safe_malloc init_heap
malloc-begun os fuel n p s empty area pos = rw (empty, area, init_heap, ne→== p 0 pos) refl

-- The first call on a fresh heap returns NULL unless it takes the whole heap: the block is split, and
-- its data pointer was never set. A second call for the same size returns the block.
pub first_call_null :
    (os : Os) (fuel n p : ℕ) (s : Heap)
    → Gives os
    → s.head ≡ null
    → os.area ≡ some p
    → p ≢ null
    → p < 2 ^ 62
    → n + header_size < page_size - header_size
    → (s₁ : Heap) × (thread_safe_malloc os (suc fuel) n s ≡ returns (s₁, null))
      × (s₂ : Heap) × (thread_safe_malloc os (suc fuel) n s₁ ≡ returns (s₂, p + header_size))
first_call_null os fuel n p s gives empty area pos small room =
    let s₀ = begun p s in
    let first : s₀.blocks p ≡ record zero_header { size = page_size - header_size; free = 1 } =
      rw (eq→== p p refl) refl in
    let free : (s₀.blocks p).free ≢ 0 = rw first (λ e. omega (arith, e)) in
    let bound : p + (s₀.blocks p).size < 2 ^ 63 = rw first (omega (arith, small)) in
    let s₁ = record s₀ { blocks = split_blocks os fuel n p s₀ refl pos free bound } in
    let e =
      split_null os fuel n p s₀ refl pos free bound (rw first (omega (arith, room)))
        (rw first refl) in
    let block : s₁.blocks p ≡ record (s₀.blocks p) { next = p + header_size + n; size = n } =
      rw (eq→== p p refl) refl in
    let (s₂, f) =
      take_some os fuel n p s₁ refl pos (rw block free) (rw block (omega (arith, room, small)))
        (rw block refl) gives in
    (s₁, malloc-begun os (suc fuel) n p s empty area pos ∙ e, s₂, f)
