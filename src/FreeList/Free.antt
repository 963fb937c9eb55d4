-- ===== src/FreeList/Free.antt =====
-- `pm_free` on memory: the block is marked free, and then the free neighbours are merged.
use computersystems_monorepo.Prelude.{
  ℕ, ◌+◌, ◌-◌, ◌^◌, ◌≤◌, ◌<◌, ◌≡◌, ◌∙◌, ap, sym, refl, ◌≢◌, arith, List, [], ◌∷◌, ◌==◌, ◌&&◌, true,
  false, Bool-cases, inl, inr, leb, ==→eq,
}
use computersystems_monorepo.FreeList.{
  Memory, header_size, null, sub_size, ok, set_free, mergefrag, pm_free,
}
use computersystems_monorepo.FreeList.Chain.{
  Block, block, after, next_of, IsChain, IsChain-above, IsChain-length,
}
use computersystems_monorepo.FreeList.Write.{header, set_free-eq}
use computersystems_monorepo.FreeList.Blocks.{merge_pass, is_block, release}
use computersystems_monorepo.FreeList.Merge.{Matches, merge_loop-Matches}

release-next_of : (a p q : ℕ) (bs : List Block) → next_of q (release a p bs) ≡ next_of q bs
unfolding release
release-next_of a p q [] = refl
release-next_of a p q (b ∷ bs) = ground arith

-- The pointer of a block of the list points into the arena.
pub is_block-bounds :
    (m : Memory) (a p end : ℕ) (bs : List Block)
    → IsChain m p end bs
    → is_block a p bs ≡ true
    → (p + header_size ≤ a) × (a ≤ end)
is_block-bounds m a p end [] h e = absurd cc
is_block-bounds m a p end (b ∷ bs) (here, rest) e = elim (Bool-cases (a == p + header_size)) [
  | inl this ↦
      let room = IsChain-length m (after p b) end bs rest in
      let at_p : a ≡ p + header_size = ==→eq a _ this in
      (omega (arith, at_p), omega (arith, at_p, room))
  | inr other ↦
      let (low, high) = is_block-bounds m a (after p b) end bs rest (ground arith) in
      (omega (arith, low), high)
]

set_free-other : (q f p : ℕ) (m : Memory) → p ≢ q → set_free q f m p ≡ m p
unfolding set_free
set_free-other q f p m ne = ground arith

module _ (a end : ℕ) (m : Memory) (small : end < 2 ^ 64) where
  release-IsChain :
      (p : ℕ) (bs : List Block)
      → IsChain m p end bs
      → is_block a p bs ≡ true
      → IsChain (set_free (sub_size a header_size) 1 m) p end (release a p bs)
  unfolding release
  release-IsChain p [] h e = absurd cc
  release-IsChain p (b ∷ bs) (here, rest) e = elim (Bool-cases (a == p + header_size)) [
    | inl this ↦
        let (low, high) = is_block-bounds m a p end (b ∷ bs) (here, rest) e in
        let slot : sub_size a header_size ≡ p = omega (arith, low, high, ==→eq a _ this) in
        rw (this, slot, set_free-eq p 1 m)
          (
            ground arith,
            IsChain-above m _ (after p b) end bs rest
                (λ q le. rw (slot, set_free-eq p 1 m) (ground arith)),
          )
    | inr other ↦
        let tail : is_block a (after p b) bs ≡ true = ground arith in
        let (low, high) = is_block-bounds m a (after p b) end bs rest tail in
        let slot : sub_size a header_size ≡ a - header_size = omega (arith, low, high) in
        rw other (
          rw (slot, set_free-other (a - header_size) 1 p m (λ e. omega (arith, low)))
              (here
                ∙ ap (header b.size b.free) (sym (release-next_of a (after p b) (after p b) bs))),
          release-IsChain (after p b) bs rest tail,
        )
  ]

module _ (mem her a : ℕ) (m : Memory) (small : mem + her < 2 ^ 64) (pos : mem ≢ null) where
  mergefrag-Matches :
      (m : Memory) (b : Block) (bs : List Block)
      → IsChain m mem (mem + her) (b ∷ bs)
      → Matches m mem (mem + her) (merge_pass (b ∷ bs)) (mergefrag mem her m)
  unfolding mergefrag
  mergefrag-Matches m b bs h =
      merge_loop-Matches (mem + her) small (her + 1) mem m b bs pos h
        (omega (arith, IsChain-length m mem (mem + her) (b ∷ bs) h))

  -- `pm_free` of the pointer of any block, used or free, does to the memory what `release` and then
  -- `merge_pass` do to the blocks. It faults exactly where `merge_pass` runs off the list.
  pub pm_free_refines :
      (bs : List Block)
      → IsChain m mem (mem + her) bs
      → is_block a mem bs ≡ true
      → Matches
          (set_free (sub_size a header_size) 1 m)
          mem
          (mem + her)
          (merge_pass (release a mem bs))
          (pm_free mem her a m)
  unfolding pm_free release
  pm_free_refines [] h e = absurd cc
  pm_free_refines (b ∷ bs) h e =
      let (low, high) = is_block-bounds m a mem (mem + her) (b ∷ bs) h e in
      let inside : (leb mem a && leb a (mem + her)) ≡ true = ground (arith, low, high) in
      let chain = release-IsChain a (mem + her) m small mem (b ∷ bs) h e in
      rw inside (elim (Bool-cases (a == mem + header_size)) [
        | inl this ↦ rw this (mergefrag-Matches _ (block b.size 1) bs (rw this at chain))
        | inr other ↦
            rw other (mergefrag-Matches _ b (release a (after mem b) bs) (rw other at chain))
      ])

  -- A pointer outside of the arena changes nothing.
  pub pm_free-outside : (leb mem a && leb a (mem + her)) ≡ false → pm_free mem her a m ≡ ok m
  unfolding pm_free
  pm_free-outside e = rw e
