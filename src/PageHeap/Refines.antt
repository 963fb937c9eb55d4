-- ===== src/PageHeap/Refines.antt =====
-- `pm_malloc_lock` on memory is `alloc` on the blocks.
use computersystems_monorepo.Prelude.{
  ℕ, zero, suc, ◌+◌, ◌^◌, ◌≤◌, ◌<◌, ◌≡◌, ◌∙◌, ap, sym, refl, ◌≢◌, arith, List, [], ◌∷◌, ◌==◌, ltb,
  length, ◌||◌, ◌&&◌, Bool, true, false, not, Bool-cases, ne→==, ltb→lt, inl, inr, if◌then◌else◌,
}
use computersystems_monorepo.FreeList.{
  Header, Memory, header_size, null, add_size, Run, ok, fault, out_of_fuel, take_block,
}
use computersystems_monorepo.FreeList.Chain.{Block, after, next_of, IsChain, IsChain-length}
use computersystems_monorepo.FreeList.Write.{header}
use computersystems_monorepo.FreeList.Blocks.{take, is_unfit, keep}
use computersystems_monorepo.FreeList.Malloc.{Done, take_block-Done}
use computersystems_monorepo.Split.{frag}
use computersystems_monorepo.Split.Absorb.{split, frag-split}
use computersystems_monorepo.Paging.{page_size, num_pages}
use computersystems_monorepo.Locked.Discipline.{is_guarded}
use computersystems_monorepo.PageHeap.{
  Mmap, State, Outcome, returns, search_block, grow, take_or_split, take_grown, take_searched,
  malloc_from, pm_malloc_lock,
}
use computersystems_monorepo.PageHeap.Blocks.{grant, alloc}
use computersystems_monorepo.PageHeap.Pages.{mapped, allocate_used_lem}

module _ (n p end : ℕ) (m : Memory) (small : end < 2 ^ 64) (request : n + header_size < 2 ^ 64)
    (b : Block) (bs : List Block) (here : m p ≡ header b.size b.free (next_of (after p b) bs))
    (rest : IsChain m (after p b) end bs) where
  bound : after p b ≤ end
  bound = omega (arith, IsChain-length m (after p b) end bs rest)

  -- Where the block is not split, the two allocators agree.
  same_as_take :
      ltb (n + header_size) b.size ≡ false
      → (take_or_split n p m ≡ take_block n p m) × (grant n p b bs ≡ take n p b bs)
  unfolding take_or_split take_block grant take
  same_as_take tight =
      let need : add_size n header_size ≡ n + header_size = omega arith in
      (rw (here, need, tight) refl, rw tight refl)

  split_shape :
      ltb (n + header_size) b.size ≡ true
      → (take_or_split n p m ≡ (frag p n m, p + header_size))
        × (grant n p b bs ≡ (split n b bs, p + header_size))
  unfolding take_or_split grant
  split_shape large =
      let need : add_size n header_size ≡ n + header_size = omega arith in
      let pointer : add_size p header_size ≡ p + header_size = omega (arith, bound) in
      let other : (b.size == n) ≡ false = ground arith in
      (rw (here, other, need, large, pointer) refl, rw (other, large) refl)

  take_or_split-Done : Done m p end (grant n p b bs) (take_or_split n p m)
  take_or_split-Done = elim (Bool-cases (ltb (n + header_size) b.size)) [
    | inl large ↦
        let (code, spec) = split_shape large in
        let (tiles, kept) = frag-split n p end m b bs small (ltb→lt _ _ large) (here, rest) in
        rw (code, spec) (tiles, refl, kept)
    | inr tight ↦
        let (code, spec) = same_as_take tight in
        rw (code, spec) (take_block-Done n p end m small request b bs here rest)
  ]

module _ (fuel n prev p : ℕ) (m : Memory) where
  abbrev passes : Bool
  passes = (ltb (m p).size n || ((m p).free == 0)) && not ((m p).next == null)

  search_block-stop : passes ≡ false → search_block (suc fuel) n prev p m ≡ ok (prev, p)
  unfolding search_block
  search_block-stop e = rw (e, search_block)

  search_block-next :
      passes ≡ true → search_block (suc fuel) n prev p m ≡ search_block fuel n p (m p).next m
  unfolding search_block
  search_block-next e = rw (e, search_block)

-- The search ends at a block of the list, and what is taken there is what `alloc` takes.
abbrev pub Finds : (n p end : ℕ) → Memory → List Block × ℕ → Run (ℕ × ℕ) → Type 0
Finds n p end m target (ok (prev, current)) =
    (current ≢ null) × Done m p end target (take_or_split n current m)
Finds n p end m target fault = ⊥
Finds n p end m target out_of_fuel = ⊥

-- An allocation does not empty the list.
alloc-next_of : (n p q : ℕ) (b : Block) (bs : List Block) → next_of q (alloc n p (b ∷ bs)).0 ≡ q
unfolding alloc grant split
alloc-next_of n p q b [] = ground arith
alloc-next_of n p q b (c ∷ bs) = ground arith

module _ (n end : ℕ) (m : Memory) (small : end < 2 ^ 64) (request : n + header_size < 2 ^ 64) where
  -- A block that the search passes by stays in front.
  Finds-keep :
      (p : ℕ) (b c : Block) (bs : List Block) (r : Run (ℕ × ℕ))
      → m p ≡ header b.size b.free (after p b)
      → Finds n (after p b) end m (alloc n (after p b) (c ∷ bs)) r
      → Finds n p end m (keep b (alloc n (after p b) (c ∷ bs))) r
  Finds-keep p b c bs (ok (prev, current)) here (found, (chain, pointer, same)) = (
    found,
    (
      (
        same p (omega arith)
            ∙ here
            ∙ ap (header b.size b.free) (sym (alloc-next_of n (after p b) (after p b) c bs)),
        chain,
      ),
      pointer,
      λ a lt. same a (omega arith),
    ),
  )
  Finds-keep p b c bs fault here found = found
  Finds-keep p b c bs out_of_fuel here found = found

  search_block-Finds :
      (fuel prev p : ℕ) (b : Block) (bs : List Block)
      → p ≢ null
      → IsChain m p end (b ∷ bs)
      → length bs < fuel
      → Finds n p end m (alloc n p (b ∷ bs)) (search_block fuel n prev p m)
  unfolding alloc
  search_block-Finds zero prev p b bs pos h enough = absurd (omega arith)
  search_block-Finds (suc fuel) prev p b [] pos (here, rest) enough =
      rw (search_block-stop fuel n prev p m (rw here (ground arith)))
        (pos, take_or_split-Done n p end m small request b [] here rest)
  search_block-Finds (suc fuel) prev p b (c ∷ bs) pos (here, rest) enough =
      elim (Bool-cases (is_unfit n b)) [
        | inl unfit ↦
            let next : (m p).next ≡ after p b = ap (λ (h : Header). h.next) here in
            rw (unfit, search_block-next fuel n prev p m (rw (here, unfit) (ground arith)), next)
              (Finds-keep p b c bs _ here
                (search_block-Finds fuel p (after p b) c bs (λ e. omega arith) rest (omega arith)))
        | inr fit ↦
            rw (fit, search_block-stop fuel n prev p m (rw (here, fit)))
              (pos, take_or_split-Done n p end m small request b (c ∷ bs) here rest)
      ]

-- The call returns, with the memory and the pointer of `target` and with the pages mapped.
abbrev pub Grants : Mmap → State → (mem : ℕ) → List Block × ℕ → Outcome (State × ℕ) → Type 0
Grants mmap s mem target (returns (s', ptr)) =
    Done s.memory mem (mem + page_size) target (s'.memory, ptr)
    × ((i : ℕ)
        → s'.pageing i ≡ (if ltb i num_pages then mapped mmap i (s.pageing i) else s.pageing i))
Grants mmap s mem target _ = ⊥

take_searched-Grants :
    (mmap : Mmap) (mem n : ℕ) (s : State) (target : List Block × ℕ) (r : Run (ℕ × ℕ))
    → Finds n mem (mem + page_size) s.memory target r
    → let t = take_searched mmap mem n s r in
      Grants mmap s mem target t.result × (is_guarded true t.events ≡ true)
unfolding take_searched take_grown grow
take_searched-Grants mmap mem n s target (ok (prev, current)) (found, done) =
    let same : (current == null) ≡ false = ne→== current null found in
    rw (same, take_grown) ((done, allocate_used_lem mmap s.pageing), refl)
take_searched-Grants mmap mem n s target fault found = absurd found
take_searched-Grants mmap mem n s target out_of_fuel found = absurd found

-- On an arena that was set up, with a request below 2 ^ 64 - 24, pm_malloc_lock returns, whatever mmap
-- answers: it does to the memory what `alloc` does to the blocks, it marks the pages that were used and
-- not dirty as dirty where mmap gave memory, and no other, and it keeps to the mutex.
pub pm_malloc_lock-Grants :
    (opened resized : Bool) (mmap : Mmap) (mem n : ℕ) (s : State) (b : Block) (bs : List Block)
    → mem ≢ 0
    → mem + page_size < 2 ^ 64
    → n + header_size < 2 ^ 64
    → b.size ≢ 0
    → IsChain s.memory mem (mem + page_size) (b ∷ bs)
    → let t = pm_malloc_lock opened resized mmap mem n s in
      Grants mmap s mem (alloc n mem (b ∷ bs)) t.result × (is_guarded false t.events ≡ true)
unfolding pm_malloc_lock malloc_from
pm_malloc_lock-Grants opened resized mmap mem n s b bs pos small request used chain =
    let set_up : ((s.memory mem).size == 0) ≡ false =
      ne→== _ 0 (λ e. used (sym (ap (λ (h : Header). h.size) chain.0) ∙ e)) in
    let room = IsChain-length s.memory mem (mem + page_size) (b ∷ bs) chain in
    rw (set_up, malloc_from)
      (take_searched-Grants mmap mem n s (alloc n mem (b ∷ bs))
        (search_block (page_size + 1) n mem mem s.memory)
        (search_block-Finds n (mem + page_size) s.memory small request (page_size + 1) mem mem b bs
          pos chain (omega (arith, room))))
