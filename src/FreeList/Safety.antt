-- ===== src/FreeList/Safety.antt =====
-- What the allocator promises a client, and where it does not keep it, on memory.
use computersystems_monorepo.Prelude.{
  ℕ, ◌+◌, ◌-◌, ◌<◌, ◌^◌, ◌≡◌, ◌∙◌, refl, sym, subst, ap, ◌≢◌, ◌⊎◌, arith, List, [], ◌∷◌, ◌++◌, ◌==◌,
  ◌&&◌, true, inl, inr, Option, none, some, not,
}
use computersystems_monorepo.FreeList.{
  Memory, Run, ok, fault, out_of_fuel, header_size, null, pm_malloc, pm_free,
}
use computersystems_monorepo.FreeList.Chain.{Block, block, after, IsChain}
use computersystems_monorepo.FreeList.Blocks.{keep, alloc, merge_pass, release, is_block}
use computersystems_monorepo.FreeList.Malloc.{
  Ensures, Ensures-mono, Done, pm_malloc_refines, pm_malloc_resets,
}
use computersystems_monorepo.FreeList.Merge.{Matches}
use computersystems_monorepo.FreeList.Free.{pm_free_refines}
use computersystems_monorepo.FreeList.Live.{
  is_live, Fresh, release-live, merge_pass-live, take-exact, take-split, alloc-unfit,
}
use computersystems_monorepo.FreeList.Faults.{are_used, behind, pm_free_faults}

-- After a call that gave out `r`, the arena is again a list of blocks, and either `r` is NULL and
-- the blocks are the same, or `r` is new.
abbrev pub Given : (mem end : ℕ) → List Block → Memory × ℕ → Type 0
Given mem end bs (m', r) = (cs : List Block) × IsChain m' mem end cs × Fresh mem bs (cs, r)

abbrev pub Freed : (mem end a : ℕ) → List Block → Memory → Type 0
Freed mem end a bs m' =
    (cs : List Block) × IsChain m' mem end cs
    × ((x : ℕ) → is_live x mem cs ≡ (not (x == a) && is_live x mem bs))

Matches-Freed :
    (m : Memory) (p end a : ℕ) (bs : List Block) (o : Option (List Block)) (r : Run Memory)
    → o ≡ merge_pass (release a p bs)
    → Matches m p end o r
    → (r ≡ fault) ⊎ Ensures (Freed p end a bs) r
Matches-Freed m p end a bs none fault e h = inl refl
Matches-Freed m p end a bs (some cs) (ok m') e (chain, kept) =
    inr (cs, chain, λ x. merge_pass-live x p (release a p bs) cs (sym e) ∙ release-live x a p bs)
Matches-Freed m p end a bs none (ok m') e h = absurd h
Matches-Freed m p end a bs (some cs) fault e h = absurd h
Matches-Freed m p end a bs none out_of_fuel e h = absurd h
Matches-Freed m p end a bs (some cs) out_of_fuel e h = absurd h

alloc-twice :
    (n p : ℕ) (bs : List Block)
    → are_used bs ≡ true
    → alloc n p (bs ++ block n 0 ∷ []) ≡ (bs ++ block n 0 ∷ [], behind p bs + header_size)
unfolding alloc
alloc-twice n p [] used = take-exact n p (block n 0) [] (ground arith)
alloc-twice n p (b ∷ []) used =
    alloc-unfit n p b (block n 0) [] (ground arith)
    ∙ ap (keep b) (alloc-twice n (after p b) [] refl)
alloc-twice n p (b ∷ c ∷ bs) used =
    alloc-unfit n p b c (bs ++ block n 0 ∷ []) (ground arith)
    ∙ ap (keep b) (alloc-twice n (after p b) (c ∷ bs) (ground arith))

-- The blocks and the pointer, where those of the model are known.
Done-known :
    (m : Memory) (p end q : ℕ) (cs : List Block) (o : List Block × ℕ) (r : Memory × ℕ)
    → o ≡ (cs, q)
    → Done m p end o r
    → IsChain r.0 p end cs × (r.1 ≡ q)
Done-known m p end q cs o (m', r) e done =
    let (chain, pointer, same) = subst (λ x. Done m p end x (m', r)) e done in (chain, pointer)

-- The only block of the list is split.
alloc-first :
    (n p size : ℕ)
    → n + header_size < size
    → alloc n p (block size 1 ∷ [])
      ≡ (block n 0 ∷ block (size - n - header_size) 1 ∷ [], p + header_size)
unfolding alloc
alloc-first n p size room = take-split n p (block size 1) [] (ground arith) (ground arith)

is_live-last :
    (n p : ℕ) (bs : List Block)
    → is_live (behind p bs + header_size) p (bs ++ block n 0 ∷ []) ≡ true
is_live-last n p [] = ground arith
is_live-last n p (b ∷ bs) = ground (arith, is_live-last n (after p b) bs)

module _ (mem her n : ℕ) (m : Memory) (small : mem + her < 2 ^ 64)
    (request : n + header_size < 2 ^ 64) where
  -- Where all blocks are in use and the last has the size of the request, `pm_malloc` gives out the
  -- last block, which a client has already.
  pub pm_malloc_twice :
      (b : Block) (bs : List Block)
      → IsChain m mem (mem + her) (b ∷ bs ++ block n 0 ∷ [])
      → b.size ≢ 0
      → are_used (b ∷ bs) ≡ true
      → Ensures
          (λ (m', r). (r ≢ null) × (is_live r mem (b ∷ bs ++ block n 0 ∷ []) ≡ true))
          (pm_malloc mem her n m)
  pm_malloc_twice b bs h used all =
      let live = is_live-last n mem (b ∷ bs) in
      Ensures-mono _ _ (pm_malloc mem her n m)
        (pm_malloc_refines mem her n m small request b (bs ++ block n 0 ∷ []) h used)
        λ (m', r) done.
          let (chain, at) = Done-known _ _ _ _ _ _ _ (alloc-twice n mem (b ∷ bs) all) done in
          ((λ e. omega (arith, at)), ap (λ x. is_live x mem (b ∷ bs ++ block n 0 ∷ [])) at ∙ live)

  -- The first allocation of an arena, when freed with nothing in between, makes `pm_free` read
  -- through NULL, unless it took more than what leaves room for another block.
  pub malloc_free_faults :
      (m mem).size ≡ 0
      → n + header_size < her - header_size
      → mem ≢ null
      → Ensures (λ (m', r). pm_free mem her r m' ≡ fault) (pm_malloc mem her n m)
  malloc_free_faults empty room pos =
      Ensures-mono _ _ (pm_malloc mem her n m)
        (pm_malloc_resets mem her n m small request empty (omega arith))
        λ (m', r) done.
          let (chain, at) =
            Done-known _ _ _ _ _ _ _ (alloc-first n mem (her - header_size) room) done in
          rw at (
            pm_free_faults mem her m' small pos [] (block n 0)
              (block (her - header_size - n - header_size) 1) chain refl (λ e. omega arith))

module _ (mem her a : ℕ) (m : Memory) (small : mem + her < 2 ^ 64) (pos : mem ≢ null) where
  -- `pm_free` of the pointer of a block faults, or leaves the arena a list of blocks in which that
  -- pointer, and no other, is no longer in use.
  pub pm_free_safe :
      (bs : List Block)
      → IsChain m mem (mem + her) bs
      → is_block a mem bs ≡ true
      → (pm_free mem her a m ≡ fault) ⊎ Ensures (Freed mem (mem + her) a bs) (pm_free mem her a m)
  pm_free_safe bs h block =
      Matches-Freed _ mem (mem + her) a bs _ _ refl
        (pm_free_refines mem her a m small pos bs h block)
