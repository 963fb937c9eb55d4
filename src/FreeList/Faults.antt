-- ===== src/FreeList/Faults.antt =====
-- Where `mergefrag` runs off the list: the last two blocks were joined.
use mathlib.Core.Option.{some-ne-none}
use computersystems_monorepo.Prelude.{
  ℕ, ◌+◌, ◌≤◌, ◌<◌, ◌^◌, ◌≡◌, refl, ◌≢◌, arith, List, [], ◌∷◌, ◌++◌, ◌==◌, ◌&&◌, Bool, true, false,
  Bool-cases, inl, inr, Option, none, some,
}
use computersystems_monorepo.FreeList.{
  Memory, Run, ok, fault, out_of_fuel, header_size, null, pm_free,
}
use computersystems_monorepo.FreeList.Chain.{Block, block, after, IsChain}
use computersystems_monorepo.FreeList.Blocks.{
  are_free, joined, prepend, merge_pass, release, is_block,
}
use computersystems_monorepo.FreeList.Merge.{Matches, merge_pass-used}
use computersystems_monorepo.FreeList.Free.{pm_free_refines}
use computersystems_monorepo.FreeList.Live.{is_last_free}

abbrev pub are_used : List Block → Bool
are_used [] = true
are_used (b ∷ bs) = (b.free == 0) && are_used bs

-- The address behind the blocks.
abbrev pub behind : ℕ → List Block → ℕ
behind p [] = p
behind p (b ∷ bs) = behind (after p b) bs

merge_pass-front :
    (b : Block) (bs : List Block)
    → (b.free == 0) ≡ true
    → merge_pass bs ≡ none
    → merge_pass (b ∷ bs) ≡ none
unfolding merge_pass
merge_pass-front b [] used e = absurd (some-ne-none _ e)
merge_pass-front b (c ∷ bs) used e = rw (merge_pass-used b c bs (ground arith), e) refl

merge_pass-fault :
    (bs : List Block) (b c : Block)
    → are_used bs ≡ true
    → are_free b c ≡ true
    → merge_pass (bs ++ b ∷ c ∷ []) ≡ none
unfolding merge_pass
merge_pass-fault [] b c used both = rw both refl
merge_pass-fault (a ∷ bs) b c used both =
    merge_pass-front a (bs ++ b ∷ c ∷ []) (ground arith)
      (merge_pass-fault bs b c (ground arith) both)

behind-low : (p : ℕ) (bs : List Block) → p ≤ behind p bs
behind-low p [] = omega arith
behind-low p (b ∷ bs) = omega (arith, behind-low (after p b) bs)

release-last :
    (p : ℕ) (bs : List Block) (b c : Block)
    → release (behind p bs + header_size) p (bs ++ b ∷ c ∷ []) ≡ bs ++ block b.size 1 ∷ c ∷ []
unfolding release
release-last p [] b c = ground arith
release-last p (a ∷ bs) b c =
    ground (arith, release-last (after p a) bs b c, behind-low (after p a) bs)

is_block-last :
    (p : ℕ) (bs : List Block) (b c : Block)
    → is_block (behind p bs + header_size) p (bs ++ b ∷ c ∷ []) ≡ true
is_block-last p [] b c = ground arith
is_block-last p (a ∷ bs) b c = ground (arith, is_block-last (after p a) bs b c)

prepend-ends : (b : Block) (o : Option (List Block)) → o ≢ none → prepend b o ≢ none
prepend-ends b none more e = more refl
prepend-ends b (some bs) h e = some-ne-none _ e

-- A pass over a list whose last block is in use does not run off it.
merge_pass-ends : (bs : List Block) → is_last_free bs ≡ false → merge_pass bs ≢ none
unfolding merge_pass
merge_pass-ends [] last e = some-ne-none _ e
merge_pass-ends (b ∷ []) last e = some-ne-none _ e
merge_pass-ends (b ∷ c ∷ []) last e =
    let one : are_free b c ≡ false = ground arith in some-ne-none _ (rw one at e)
merge_pass-ends (b ∷ c ∷ d ∷ bs) last e = elim (Bool-cases (are_free b c)) [
  | inl both ↦
      prepend-ends (joined b c) (merge_pass (d ∷ bs)) (merge_pass-ends (d ∷ bs) last)
        (rw (both, merge_pass) at e)
  | inr one ↦
      prepend-ends b (merge_pass (c ∷ d ∷ bs)) (merge_pass-ends (c ∷ d ∷ bs) last)
        (rw (one, merge_pass) at e)
]

Matches-none :
    (m : Memory) (p end : ℕ) (o : Option (List Block)) (r : Run Memory)
    → Matches m p end o r
    → o ≡ none
    → r ≡ fault
Matches-none m p end none fault h e = refl
Matches-none m p end none (ok m') h e = absurd h
Matches-none m p end none out_of_fuel h e = absurd h
Matches-none m p end (some bs) r h e = absurd (some-ne-none _ e)

Matches-some :
    (m : Memory) (p end : ℕ) (o : Option (List Block)) (r : Run Memory)
    → Matches m p end o r
    → o ≢ none
    → (m' : Memory) × (r ≡ ok m')
Matches-some m p end none r h e = absurd (e refl)
Matches-some m p end (some bs) (ok m') h e = (m', refl)
Matches-some m p end (some bs) fault h e = absurd h
Matches-some m p end (some bs) out_of_fuel h e = absurd h

module _ (mem her : ℕ) (m : Memory) (small : mem + her < 2 ^ 64) (pos : mem ≢ null) where
  -- Where all blocks but the last are in use and the last is free, `pm_free` of the block in front
  -- of the last reads through NULL: the two are joined, and the loop goes on behind the end.
  pub pm_free_faults :
      (bs : List Block) (b c : Block)
      → IsChain m mem (mem + her) (bs ++ b ∷ c ∷ [])
      → are_used bs ≡ true
      → c.free ≢ 0
      → pm_free mem her (behind mem bs + header_size) m ≡ fault
  pm_free_faults bs b c h used free =
      let a = behind mem bs + header_size in
      Matches-none _ _ _ _ _
        (pm_free_refines mem her a m small pos (bs ++ b ∷ c ∷ []) h (is_block-last mem bs b c))
        (rw (release-last mem bs b c) (merge_pass-fault bs (block b.size 1) c used (ground arith)))

  -- Where the last block stays in use, `pm_free` of a block returns.
  pub pm_free_returns :
      (a : ℕ) (bs : List Block)
      → IsChain m mem (mem + her) bs
      → is_block a mem bs ≡ true
      → is_last_free (release a mem bs) ≡ false
      → (m' : Memory) × (pm_free mem her a m ≡ ok m')
  pm_free_returns a bs h block last =
      Matches-some _ _ _ _ _ (pm_free_refines mem her a m small pos bs h block)
        (merge_pass-ends (release a mem bs) last)
