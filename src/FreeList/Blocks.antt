-- ===== src/FreeList/Blocks.antt =====
-- The allocator on the list of blocks, with no memory: what first fit, splitting and merging do.
use computersystems_monorepo.Prelude.{
  ℕ, ◌+◌, ◌-◌, List, [], ◌∷◌, ◌==◌, ltb, if◌then◌else◌, ◌||◌, ◌&&◌, Bool, false, Option, none, some,
  not,
}
use computersystems_monorepo.FreeList.{header_size, null}
use computersystems_monorepo.FreeList.Chain.{Block, block, after}

-- What becomes of the block at `p`, and the pointer: an exact fit, a split, or NULL.
unfoldable pub take : (n p : ℕ) → Block → List Block → List Block × ℕ
take n p b bs =
    if b.size == n
    then (block n 0 ∷ bs, p + header_size)
    else if ltb (n + header_size) b.size
    then (block n 0 ∷ block (b.size - n - header_size) 1 ∷ bs, p + header_size)
    else (b ∷ bs, null)

-- A block that the search passes by, unless it is the last.
abbrev pub is_unfit : ℕ → Block → Bool
is_unfit n b = ltb b.size n || (b.free == 0)

abbrev pub keep : Block → List Block × ℕ → List Block × ℕ
keep b (bs, r) = (b ∷ bs, r)

unfoldable pub alloc : (n p : ℕ) → List Block → List Block × ℕ
unfolding take
alloc n p [] = ([], null)
alloc n p (b ∷ []) = take n p b []
alloc n p (b ∷ c ∷ bs) =
    let rest = alloc n (after p b) (c ∷ bs) in
    if is_unfit n b then keep b rest else take n p b (c ∷ bs)

abbrev pub are_free : Block → Block → Bool
are_free b c = not (b.free == 0) && not (c.free == 0)

abbrev pub joined : Block → Block → Block
joined b c = block (b.size + (c.size + header_size)) b.free

abbrev pub prepend : Block → Option (List Block) → Option (List Block)
prepend b none = none
prepend b (some bs) = some (b ∷ bs)

-- One pass of `mergefrag`: two free neighbours become one block, and the pass goes on behind it.
-- `none` is the fault: the last two blocks were joined, and nothing is behind them.
unfoldable pub merge_pass : List Block → Option (List Block)
merge_pass [] = some []
merge_pass (b ∷ []) = some (b ∷ [])
merge_pass (b ∷ c ∷ []) = if are_free b c then none else some (b ∷ c ∷ [])
merge_pass (b ∷ c ∷ d ∷ bs) =
    let behind = prepend (joined b c) (merge_pass (d ∷ bs)) in
    let next = prepend b (merge_pass (c ∷ d ∷ bs)) in if are_free b c then behind else next

-- `a` is the pointer to a block of the list from `p`.
abbrev pub is_block : (a p : ℕ) → List Block → Bool
is_block a p [] = false
is_block a p (b ∷ bs) = (a == p + header_size) || is_block a (after p b) bs

-- The block with pointer `a` is marked free.
unfoldable pub release : (a p : ℕ) → List Block → List Block
release a p [] = []
release a p (b ∷ bs) =
    if a == p + header_size then block b.size 1 ∷ bs else b ∷ release a (after p b) bs
