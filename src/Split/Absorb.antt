-- ===== src/Split/Absorb.antt =====
-- `frag` on memory is a split on the list of blocks.
use mathlib.Core.Path.{fun_ext}
use computersystems_monorepo.Prelude.{
  ℕ, ◌+◌, ◌-◌, ◌^◌, ◌<◌, ◌≡◌, ◌∙◌, ap, sym, subst, refl, arith, List, [], ◌∷◌, ltb, ◌&&◌, not, ◌==◌,
  true, false, update, Bool-cases, eq→==, ne→==, inl, inr, if◌then◌else◌,
}
use computersystems_monorepo.FreeList.{
  Header, Memory, header_size, null, add_size, sub_size, set_size, set_next,
}
use computersystems_monorepo.FreeList
use computersystems_monorepo.FreeList.Chain.{
  Block, block, after, next_of, IsChain, IsChain-above, IsChain-length,
}
use computersystems_monorepo.FreeList.Blocks.{joined}
use computersystems_monorepo.FreeList.Write.{header, frag-eq}
use computersystems_monorepo.Split.{absorb, frag}

-- What becomes of a rest and the blocks behind it.
unfoldable pub absorb_blocks : Block → List Block → List Block
absorb_blocks r [] = r ∷ []
absorb_blocks r (c ∷ bs) =
    if ltb r.size header_size && not (c.free == 0) then joined r c ∷ bs else r ∷ c ∷ bs

-- A block of `n` bytes in use, and the rest.
unfoldable pub split : (n : ℕ) → Block → List Block → List Block
split n b bs = block n 0 ∷ absorb_blocks (block (b.size - n - header_size) 1) bs

absorb_blocks-next_of : (q : ℕ) (r : Block) (bs : List Block) → next_of q (absorb_blocks r bs) ≡ q
unfolding absorb_blocks
absorb_blocks-next_of q r [] = refl
absorb_blocks-next_of q r (c ∷ bs) = ground arith

abbrev Absorbed : Memory → (q end : ℕ) → List Block → Memory → Type 0
Absorbed m q end bs m' = IsChain m' q end bs × ((a : ℕ) → a < q → m' a ≡ m a)

module _ (q end : ℕ) (m : Memory) (small : end < 2 ^ 64) (r : Block) where
  absorb-last : m q ≡ header r.size r.free null → absorb q m ≡ m
  unfolding absorb
  absorb-last here = rw here (ground arith)

  module _ (c : Block) (bs : List Block) (here : m q ≡ header r.size r.free (after q r))
      (next : m (after q r) ≡ header c.size c.free (next_of (after (after q r) c) bs))
      (rest : IsChain m (after (after q r) c) end bs) where
    absorb-kept : (ltb r.size header_size && not (c.free == 0)) ≡ false → absorb q m ≡ m
    unfolding absorb
    absorb-kept keep = rw (here, next, ne→== (after q r) 0 (λ e. omega arith)) (ground arith)

    absorb-joined :
        (ltb r.size header_size && not (c.free == 0)) ≡ true
        → absorb q m
          ≡ update m q
              (header (r.size + (c.size + header_size)) r.free (next_of (after (after q r) c) bs))
    unfolding absorb set_size set_next
    absorb-joined both =
        let room = IsChain-length m (after (after q r) c) end bs rest in
        let sum : add_size r.size (add_size c.size header_size) ≡ r.size + (c.size + header_size) =
          omega (arith, room) in
        rw
          (
            here,
            next,
            ne→== (after q r) 0 (λ e. omega arith),
            both,
            sum,
            eq→== q q refl,
            ne→== q (after q r) (λ e. omega arith),
            next,
          )
          (fun_ext λ a. ground arith)

  absorb-Absorbed :
      (bs : List Block)
      → IsChain m q end (r ∷ bs)
      → Absorbed m q end (absorb_blocks r bs) (absorb q m)
  unfolding absorb_blocks
  absorb-Absorbed [] (here, rest) = rw (absorb-last here) ((here, rest), λ a lt. refl)
  absorb-Absorbed (c ∷ bs) (here, (next, rest)) =
      elim (Bool-cases (ltb r.size header_size && not (c.free == 0))) [
        | inl both ↦
            let behind : after q (joined r c) ≡ after (after q r) c = omega arith in
            rw (absorb-joined c bs here next rest both, both, behind)
              (
                (
                  ground arith,
                  IsChain-above m _ (after (after q r) c) end bs rest (λ a le. ground arith),
                ),
                λ a lt. ground arith,
              )
        | inr keep ↦
            rw (absorb-kept c bs here next rest keep, keep) ((here, (next, rest)), λ a lt. refl)
      ]

module _ (n p end : ℕ) (m : Memory) (b : Block) (bs : List Block) (small : end < 2 ^ 64)
    (large : n + header_size < b.size) (chain : IsChain m p end (b ∷ bs)) where
  abbrev rest_size : ℕ
  rest_size = b.size - n - header_size

  -- The memory between the split and the joining.
  abbrev cut : Memory
  cut =
      update (update m (p + header_size + n) (header rest_size 1 (next_of (after p b) bs))) p
        (header n 0 (p + header_size + n))

  frag_code : frag p n m ≡ absorb (p + header_size + n) cut
  unfolding frag
  frag_code =
      let room = IsChain-length m (after p b) end bs chain.1 in
      let here = chain.0 in
      let new : add_size (add_size p n) header_size ≡ p + header_size + n = omega (arith, room) in
      let code : FreeList.frag p n m ≡ cut =
        frag-eq p n (p + header_size + n) m new (λ e. omega arith) ∙ ground (arith, here, room) in
      rw (new, code) refl

  cut-IsChain : IsChain cut (p + header_size + n) end (block rest_size 1 ∷ bs)
  cut-IsChain =
      let behind : after (p + header_size + n) (block rest_size 1) ≡ after p b = omega arith in
      rw behind
        (ground arith, IsChain-above m cut (after p b) end bs chain.1 (λ a le. ground arith))

  cut-Absorbed : Absorbed m p end (split n b bs) (absorb (p + header_size + n) cut)
  unfolding split
  cut-Absorbed =
      let q = p + header_size + n in
      let r = block rest_size 1 in
      let (tiles, kept) = absorb-Absorbed q end cut small r bs cut-IsChain in
      let at_p : cut p ≡ header n 0 q = ground arith in
      (
        (kept p (omega arith) ∙ at_p ∙ ap (header n 0) (sym (absorb_blocks-next_of q r bs)), tiles),
        λ a lt. kept a (omega arith) ∙ ground arith,
      )

-- On the blocks from `p` on, of which the first is larger than `n` and a header, `frag` leaves a block
-- of `n` bytes in use and the rest as a free block behind it, joined with the next block where that is
-- free and the rest has less than 24 bytes. The blocks tile the same memory, and below `p` nothing
-- changes.
pub frag-split :
    (n p end : ℕ) (m : Memory) (b : Block) (bs : List Block)
    → end < 2 ^ 64
    → n + header_size < b.size
    → IsChain m p end (b ∷ bs)
    → IsChain (frag p n m) p end (split n b bs) × ((a : ℕ) → a < p → frag p n m a ≡ m a)
frag-split n p end m b bs small large chain =
    subst (Absorbed m p end (split n b bs)) (sym (frag_code n p end m b bs small large chain))
      (cut-Absorbed n p end m b bs small large chain)
