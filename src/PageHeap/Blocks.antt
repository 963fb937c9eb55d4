-- ===== src/PageHeap/Blocks.antt =====
-- The allocator on the list of blocks, where a block that is split may give its rest to the next one.
use computersystems_monorepo.Prelude.{ℕ, ◌+◌, List, [], ◌∷◌, ◌==◌, ltb, if◌then◌else◌}
use computersystems_monorepo.FreeList.{header_size, null}
use computersystems_monorepo.FreeList.Chain.{Block, block, after}
use computersystems_monorepo.FreeList.Blocks.{is_unfit, keep}
use computersystems_monorepo.Split.Absorb.{split}

-- What becomes of the block at `p`, and the pointer: an exact fit, a split, or NULL.
unfoldable pub grant : (n p : ℕ) → Block → List Block → List Block × ℕ
grant n p b bs =
    if b.size == n
    then (block n 0 ∷ bs, p + header_size)
    else if ltb (n + header_size) b.size
    then (split n b bs, p + header_size)
    else (b ∷ bs, null)

unfoldable pub alloc : (n p : ℕ) → List Block → List Block × ℕ
unfolding grant
alloc n p [] = ([], null)
alloc n p (b ∷ []) = grant n p b []
alloc n p (b ∷ c ∷ bs) =
    let rest = alloc n (after p b) (c ∷ bs) in
    if is_unfit n b then keep b rest else grant n p b (c ∷ bs)
