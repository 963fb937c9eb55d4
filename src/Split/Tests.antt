-- ===== src/Split/Tests.antt =====
-- The theorem at two blocks of which the second is free: the rest of 6 bytes is joined with it.
use computersystems_monorepo.Prelude.{◌≡◌, refl, [], ◌∷◌}
use computersystems_monorepo.FreeList.Chain.{block}
use computersystems_monorepo.Split.Absorb.{split, absorb_blocks}

joined_rest : split 100 (block 130 1) (block 200 1 ∷ []) ≡ block 100 0 ∷ block 230 1 ∷ []
unfolding split absorb_blocks
joined_rest = refl
