-- ===== src/FreeList/Chain.antt =====
-- The blocks of the list tile the arena.
use computersystems_monorepo.Prelude.{ℕ, ◌+◌, ◌*◌, ◌≤◌, ◌≡◌, ◌∙◌, arith, List, [], ◌∷◌, length}
use computersystems_monorepo.FreeList.{Memory, header_size, null}

-- A block as a client sees it: its size, and the flag.
pub record Block : Type 0 where
  pub size : ℕ
  pub free : ℕ

abbrev pub block : ℕ → ℕ → Block
block s f = record { size = s; free = f }

abbrev pub after : ℕ → Block → ℕ
after p b = p + header_size + b.size

-- What the block in front of `bs` has as its `next`, with `q` the address behind it.
abbrev pub next_of : ℕ → List Block → ℕ
next_of q [] = null
next_of q (_ ∷ _) = q

-- From `p` the list runs through the blocks `bs`, each behind the other, up to `end`.
abbrev pub IsChain : Memory → (p end : ℕ) → List Block → Type 0
IsChain m p end [] = p ≡ end
IsChain m p end (b ∷ bs) =
    (m p ≡ record { size = b.size; free = b.free; next = next_of (after p b) bs })
    × IsChain m (after p b) end bs

-- The chain only depends on the memory from its start on.
pub IsChain-above :
    (m m' : Memory) (p end : ℕ) (bs : List Block)
    → IsChain m p end bs
    → ((a : ℕ) → p ≤ a → m' a ≡ m a)
    → IsChain m' p end bs
IsChain-above m m' p end [] h same = h
IsChain-above m m' p end (b ∷ bs) (here, rest) same = (
  same p (omega arith) ∙ here,
  IsChain-above m m' (after p b) end bs rest (λ a le. same a (omega arith)),
)

-- Each block takes at least a header, so there are fewer blocks than bytes.
pub IsChain-length :
    (m : Memory) (p end : ℕ) (bs : List Block) → IsChain m p end bs → p + length bs * 24 ≤ end
IsChain-length m p end [] h = omega arith
IsChain-length m p end (b ∷ bs) (here, rest) =
    omega (arith, IsChain-length m (after p b) end bs rest)
