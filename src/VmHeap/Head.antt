-- ===== src/VmHeap/Head.antt =====
-- What a call of thread_safe_malloc does with the first block of the heap.
use computersystems_monorepo.Prelude.{
  ℕ, suc, ◌+◌, ◌^◌, ◌≤◌, ◌<◌, ◌≡◌, ◌≢◌, ◌⊎◌, ◌∙◌, sym, ap, refl, arith, true, not, ◌&&◌, ltb, ◌==◌,
  some, Bool-cases, inl, inr, ne→==,
}
use computersystems_monorepo.VmHeap.Claim.{split_at, claim_split, claim_whole}
use computersystems_monorepo.VmHeap.{
  null, page_size, num_pages, absent, header_size, Headers, Os, Heap, Call, returns, exit,
  out_of_fuel, fits, search, claim, page_of, add_page, register, hand_out, serve,
  thread_safe_malloc,
}

-- The page number of any address is 0 or no index of the page table: the macro PAGE_SIZE has no
-- parentheses, so the quotient is multiplied again.
pub page_of-bounds : (os : Os) (a : ℕ) → (page_of os a ≡ 0) ⊎ (num_pages ≤ page_of os a)
page_of-bounds os a = elim (Bool-cases (page_of os a == 0)) [
  | inl here ↦ inl (ground arith)
  | inr other ↦ inr (ground arith)
]

-- `mmap` gives a page whenever it is asked.
abbrev pub Gives : Os → Type 0
Gives os = (i : ℕ) → (page : ℕ) × (os.page i ≡ some page)

-- A call returns, and its result satisfies `P`.
abbrev Ensures : {A : Type 0} → (A → Type 0) → Call A → Type 0
Ensures P (returns a) = P a
Ensures P exit = ⊥
Ensures P out_of_fuel = ⊥

Ensures-returns :
    {A : Type 0} (P : A → Type 0) (r : Call A) → Ensures P r → (a : A) × (r ≡ returns a) × P a
Ensures-returns P (returns a) h = (a, refl, h)
Ensures-returns P exit h = absurd h
Ensures-returns P out_of_fuel h = absurd h

-- The calls that leave the list of blocks alone.
abbrev pub IsSameList : Heap → Heap → Type 0
IsSameList s t = (t.head ≡ s.head) × (t.blocks ≡ s.blocks)

-- Registering a pointer returns and changes no block.
register-IsSameList :
    (os : Os) (result n : ℕ) (s : Heap) → Gives os → Ensures (IsSameList s) (register os result n s)
unfolding register add_page
register-IsSameList os result n s gives =
    let page_num = page_of os result in
    let (page, e) = gives s.page_number in
    elim (Bool-cases (ltb page_num page_size && not (s.page_tab page_num == absent))) [
      | inl known ↦ rw known (refl, refl)
      | inr unknown ↦ elim (Bool-cases (ltb page_num num_pages)) [
        | inl index ↦ rw (unknown, index, e, add_page) (refl, refl)
        | inr no_index ↦ rw (unknown, no_index) (refl, refl)
      ]
    ]

-- The head of the heap is a free block at `p` that fits, and nothing wraps.
module _ (os : Os) (fuel n p : ℕ) (s : Heap) (at : s.head ≡ p) (pos : p ≢ null)
    (free : (s.blocks p).free ≢ 0) (small : p + (s.blocks p).size < 2 ^ 63) where
  found : n ≤ (s.blocks p).size → search (suc fuel) n s.head s.blocks ≡ returns p
  unfolding search
  found room =
      let fit : fits n (s.blocks p) ≡ true = ground arith in
      ap (λ h. search (suc fuel) n h s.blocks) at ∙ rw (ne→== p 0 pos, search, fit) refl

module _ (os : Os) (n p : ℕ) (s : Heap) (pos : p ≢ null) (bs : Headers) where
  serve-null :
      claim n p s.blocks ≡ (bs, null) → serve os n p s ≡ returns (record s { blocks = bs }, null)
  unfolding serve hand_out
  serve-null e = rw (ne→== p 0 pos, serve, e) refl

  serve-claim : serve os n p s ≡ hand_out os n (claim n p s.blocks) s
  unfolding serve
  serve-claim = rw (ne→== p 0 pos, serve) refl

  hand_out-some :
      (r : ℕ) (t : Heap)
      → r ≢ null
      → register os r n (record s { blocks = bs }) ≡ returns t
      → hand_out os n (bs, r) s ≡ returns (t, r)
  unfolding hand_out
  hand_out-some r t some_r e = rw (ne→== r 0 some_r, hand_out, e) refl

  serve-some :
      (r : ℕ)
      → claim n p s.blocks ≡ (bs, r)
      → r ≢ null
      → Gives os
      → (t : Heap) × (serve os n p s ≡ returns (t, r)) × IsSameList (record s { blocks = bs }) t
  serve-some r e some_r gives =
      let (t, registered, same) =
        Ensures-returns (IsSameList (record s { blocks = bs })) _
          (register-IsSameList os r n (record s { blocks = bs }) gives) in
      (t, serve-claim ∙ ap (λ o. hand_out os n o s) e ∙ hand_out-some r t some_r registered, same)

pub malloc-serve :
    (os : Os) (fuel n p : ℕ) (s : Heap)
    → s.head ≢ null
    → search fuel n s.head s.blocks ≡ returns p
    → thread_safe_malloc os fuel n s ≡ serve os n p s
unfolding thread_safe_malloc
malloc-serve os fuel n p s in_use e = rw (ne→== s.head 0 in_use, e) refl

module _ (os : Os) (fuel n p : ℕ) (s : Heap) (at : s.head ≡ p) (pos : p ≢ null)
    (free : (s.blocks p).free ≢ 0) (small : p + (s.blocks p).size < 2 ^ 63) where
  head_serve : n ≤ (s.blocks p).size → thread_safe_malloc os (suc fuel) n s ≡ serve os n p s
  head_serve room =
      malloc-serve os (suc fuel) n p s (λ e. pos (sym at ∙ e))
        (found os fuel n p s at pos free small room)

  -- What the call leaves after a split.
  abbrev pub split_blocks : Headers
  split_blocks = split_at n p s.blocks small

  pub split_null :
      n + header_size < (s.blocks p).size
      → (s.blocks p).data_ ≡ null
      → thread_safe_malloc os (suc fuel) n s ≡ returns (record s { blocks = split_blocks }, null)
  split_null room no_data =
      head_serve (omega (arith, room))
      ∙ serve-null os n p s pos split_blocks
          (claim_split n p s.blocks small room ∙ ap (λ d. (split_blocks, d)) no_data)

  pub split_some :
      n + header_size < (s.blocks p).size
      → (s.blocks p).data_ ≢ null
      → Gives os
      → (t : Heap) × (thread_safe_malloc os (suc fuel) n s ≡ returns (t, (s.blocks p).data_))
        × IsSameList (record s { blocks = split_blocks }) t
  split_some room some_data gives =
      let (t, e, same) =
        serve-some os n p s pos split_blocks (s.blocks p).data_
          (claim_split n p s.blocks small room) some_data gives in
      (t, head_serve (omega (arith, room)) ∙ e, same)

  pub take_some :
      (s.blocks p).size ≡ n
      → Gives os
      → (t : Heap) × (thread_safe_malloc os (suc fuel) n s ≡ returns (t, p + header_size))
  take_some exact gives =
      let (t, e, same) =
        serve-some os n p s pos _ (p + header_size)
          (claim_whole n p s.blocks small (omega (arith, exact)) (omega (arith, exact)))
          (λ z. omega arith) gives in
      (t, head_serve (omega (arith, exact)) ∙ e)
