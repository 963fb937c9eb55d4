-- ===== src/FreeList/Malloc.antt =====
-- `pm_malloc` on memory is `alloc` on the blocks.
use computersystems_monorepo.Prelude.{
  ℕ, zero, suc, ◌+◌, ◌-◌, ◌^◌, ◌≤◌, ◌<◌, ◌≡◌, ◌∙◌, ap, sym, refl, ◌≢◌, arith, List, [], ◌∷◌, ◌==◌,
  ltb, length, ◌||◌, ◌&&◌, Bool, true, false, update, not, Bool-cases, ne→==, le→ltb, ==→eq, ltb→lt,
  inl, inr,
}
use computersystems_monorepo.FreeList.{
  Header, Memory, header_size, null, add_size, sub_size, Run, ok, fault, out_of_fuel, find_block,
  take_block, allocate, pm_malloc,
}
use computersystems_monorepo.FreeList.Chain.{
  Block, block, after, next_of, IsChain, IsChain-above, IsChain-length,
}
use computersystems_monorepo.FreeList.Write.{header, set_free-eq, frag-eq, init-eq}
use computersystems_monorepo.FreeList.Blocks.{take, is_unfit, alloc}

-- The run returns, and its result satisfies `P`.
abbrev pub Ensures : {A : Type 0} → (A → Type 0) → Run A → Type 0
Ensures P (ok a) = P a
Ensures P fault = ⊥
Ensures P out_of_fuel = ⊥

-- What a call at `p` leaves: the blocks and the pointer of the model, and everything below `p`.
abbrev pub Done : Memory → (p end : ℕ) → List Block × ℕ → Memory × ℕ → Type 0
Done m p end (bs, r) (m', r') = IsChain m' p end bs × (r' ≡ r) × ((a : ℕ) → a < p → m' a ≡ m a)

module _ (n p end : ℕ) (m : Memory) (small : end < 2 ^ 64) (request : n + header_size < 2 ^ 64)
    (b : Block) (bs : List Block) (here : m p ≡ header b.size b.free (next_of (after p b) bs))
    (rest : IsChain m (after p b) end bs) where
  bound : after p b ≤ end
  bound = omega (arith, IsChain-length m (after p b) end bs rest)

  pointer : add_size p header_size ≡ p + header_size
  pointer = omega (arith, bound)

  exact_shape :
      b.size ≡ n
      → (take_block n p m
          ≡ (update m p (header n 0 (next_of (p + header_size + n) bs)), p + header_size))
        × (take n p b bs ≡ (block n 0 ∷ bs, p + header_size))
  unfolding take_block take
  exact_shape exact = (ground (arith, set_free-eq p 0 m, pointer), ground arith)

  split_shape :
      n + header_size < b.size
      → (take_block n p m ≡ (
        update
            (update m
              (p + header_size + n)
              (header (b.size - n - header_size) 1 (next_of (after p b) bs)))
            p
            (header n 0 (p + header_size + n)),
        p + header_size,
      ))
        × (take n p b bs ≡ (block n 0 ∷ block (b.size - n - header_size) 1 ∷ bs, p + header_size))
  unfolding take_block take
  split_shape large =
      let new = frag-eq p n (p + header_size + n) m (omega (arith, bound)) (λ e. omega arith) in
      (ground (arith, new, pointer, bound), ground arith)

  null_shape :
      b.size ≢ n
      → b.size ≤ n + header_size
      → (take_block n p m ≡ (m, null)) × (take n p b bs ≡ (b ∷ bs, null))
  unfolding take_block take
  null_shape other tight =
      let need : add_size n header_size ≡ n + header_size = omega arith in
      (
        rw (here, ne→== b.size n other, need, le→ltb (n + header_size) b.size tight),
        rw (ne→== b.size n other, le→ltb (n + header_size) b.size tight),
      )

  pub take_block-Done : Done m p end (take n p b bs) (take_block n p m)
  take_block-Done = elim (Bool-cases (b.size == n)) [
    | inl exact ↦
        let e : b.size ≡ n = ==→eq b.size n exact in
        let (code, spec) = exact_shape e in
        rw (code, spec)
          (
            (
              ground arith,
              IsChain-above m _ (p + header_size + n) end bs (rw (← e) rest) (λ a le. ground arith),
            ),
            refl,
            λ a lt. ground arith,
          )
    | inr other ↦ elim (Bool-cases (ltb (n + header_size) b.size)) [
      | inl large ↦
          let (code, spec) = split_shape (ltb→lt _ _ large) in
          let behind : p + header_size + n + header_size + (b.size - n - header_size) ≡ after p b =
            omega (arith, ltb→lt _ _ large) in
          rw (code, spec)
            (rw behind (
              (
                ground arith,
                (
                  ground arith,
                  IsChain-above m _ (after p b) end bs rest
                      (λ a le. ground (arith, ltb→lt _ _ large)),
                ),
              ),
              refl,
              λ a lt. ground arith,
            ))
      | inr tight ↦
          let (code, spec) = null_shape (ground arith) (ground arith) in
          rw (code, spec) ((here, rest), refl, λ a lt. refl)
    ]
  ]

pub Ensures-mono :
    {A : Type 0} (P Q : A → Type 0) (r : Run A) → Ensures P r → ((a : A) → P a → Q a) → Ensures Q r
Ensures-mono P Q (ok a) h next = next a h
Ensures-mono P Q fault h next = h
Ensures-mono P Q out_of_fuel h next = h

module _ (fuel n p : ℕ) (m : Memory) where
  abbrev passes : Bool
  passes = (ltb (m p).size n || ((m p).free == 0)) && not ((m p).next == null)

  allocate-stop : passes ≡ false → allocate (suc fuel) n p m ≡ ok (take_block n p m)
  unfolding allocate find_block
  allocate-stop e = rw (e, allocate, find_block)

  allocate-next : passes ≡ true → allocate (suc fuel) n p m ≡ allocate fuel n (m p).next m
  unfolding allocate find_block
  allocate-next e = rw (e, allocate, find_block)

-- An allocation does not empty the list.
alloc-next_of : (n p q : ℕ) (b : Block) (bs : List Block) → next_of q (alloc n p (b ∷ bs)).0 ≡ q
unfolding alloc take
alloc-next_of n p q b [] = ground arith
alloc-next_of n p q b (c ∷ bs) = ground arith

module _ (n end : ℕ) (m : Memory) (small : end < 2 ^ 64) (request : n + header_size < 2 ^ 64) where
  pub allocate-Done :
      (fuel p : ℕ) (b : Block) (bs : List Block)
      → IsChain m p end (b ∷ bs)
      → length bs < fuel
      → Ensures (Done m p end (alloc n p (b ∷ bs))) (allocate fuel n p m)
  unfolding alloc
  allocate-Done zero p b bs h enough = absurd (omega arith)
  allocate-Done (suc fuel) p b [] (here, rest) enough =
      rw (allocate-stop fuel n p m (rw here (ground arith)))
        (take_block-Done n p end m small request b [] here rest)
  allocate-Done (suc fuel) p b (c ∷ bs) (here, rest) enough = elim (Bool-cases (is_unfit n b)) [
    | inl unfit ↦
        let next : (m p).next ≡ after p b = ap (λ (h : Header). h.next) here in
        rw (unfit, allocate-next fuel n p m (rw (here, unfit) (ground arith)), next)
          (Ensures-mono (Done m (after p b) end (alloc n (after p b) (c ∷ bs))) _ _
            (allocate-Done fuel (after p b) c bs rest (omega arith))
            λ (m', r) (chain, pointer, same). (
              (
                same p (omega arith)
                    ∙ here
                    ∙ ap (header b.size b.free)
                        (sym (alloc-next_of n (after p b) (after p b) c bs)),
                chain,
              ),
              pointer,
              λ a lt. same a (omega arith),
            ))
    | inr fit ↦
        rw (fit, allocate-stop fuel n p m (rw (here, fit)))
          (take_block-Done n p end m small request b (c ∷ bs) here rest)
  ]

module _ (mem her n : ℕ) (m : Memory) (small : mem + her < 2 ^ 64)
    (request : n + header_size < 2 ^ 64) where
  -- On an arena in use `pm_malloc` returns, and does to the memory what `alloc` does to the blocks.
  pub pm_malloc_refines :
      (b : Block) (bs : List Block)
      → IsChain m mem (mem + her) (b ∷ bs)
      → b.size ≢ 0
      → Ensures (Done m mem (mem + her) (alloc n mem (b ∷ bs))) (pm_malloc mem her n m)
  unfolding pm_malloc
  pm_malloc_refines b bs (here, rest) used =
      let room = IsChain-length m mem (mem + her) (b ∷ bs) (here, rest) in
      rw (here, ne→== b.size 0 used)
        (allocate-Done n (mem + her) m small request (her + 1) mem b bs (here, rest)
          (omega (arith, room)))

  -- An arena whose first size is 0 is set up afresh, whatever its blocks were: so the first call
  -- starts from one free block, and so does the call after a request of 0 bytes.
  pub pm_malloc_resets :
      (m mem).size ≡ 0
      → header_size ≤ her
      → Ensures
          (Done m mem (mem + her) (alloc n mem (block (her - header_size) 1 ∷ [])))
          (pm_malloc mem her n m)
  unfolding pm_malloc
  pm_malloc_resets empty room =
      let size : sub_size her header_size ≡ her - header_size = omega arith in
      let fresh = update m mem (header (her - header_size) 1 null) in
      let chain : IsChain fresh mem (mem + her) (block (her - header_size) 1 ∷ []) =
        (ground arith, omega arith) in
      rw (empty, init-eq mem her m, size)
        (Ensures-mono (Done fresh mem (mem + her) (alloc n mem (block (her - header_size) 1 ∷ [])))
          _ _
          (allocate-Done n (mem + her) fresh small request (her + 1) mem _ [] chain (omega arith))
          λ (m', r) (chain, pointer, same). (chain, pointer, λ a lt. same a lt ∙ ground arith))
