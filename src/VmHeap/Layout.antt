-- ===== src/VmHeap/Layout.antt =====
-- How the blocks of a heap lie: its list goes upwards in memory, and ends within the page of the heap.
use computersystems_monorepo.Prelude.{
  ℕ, zero, suc, ◌+◌, ◌-◌, ◌^◌, ◌≤◌, ◌<◌, ◌≡◌, ◌≢◌, ◌⊎◌, refl, arith, ◌==◌, Bool-cases, inl, inr,
  eq→==, ne→==, ==→eq,
}
use computersystems_monorepo.VmHeap.Claim.{split_at, taken_at}
use computersystems_monorepo.VmHeap.{null, header_size, Headers}

-- The list from `curr` on ends within `fuel` blocks; each block lies, with its header, behind the
-- blocks before it, all of them from `lo` on and below `hi`.
abbrev pub IsChain : (fuel lo hi curr : ℕ) → Headers → Type 0
IsChain zero lo hi curr m = ⊥
IsChain (suc fuel) lo hi curr m =
    (curr ≡ null)
    ⊎ ((lo ≤ curr)
        × (curr + header_size + (m curr).size ≤ hi)
        × IsChain fuel (curr + header_size + (m curr).size) hi (m curr).next m)

-- Two heaps that agree in the sizes and links from an address on.
abbrev AgreeFrom : ℕ → Headers → Headers → Type 0
AgreeFrom lo m m' = (a : ℕ) → lo ≤ a → ((m' a).size ≡ (m a).size) × ((m' a).next ≡ (m a).next)

pub IsChain-agree :
    (fuel lo hi curr : ℕ) (m m' : Headers)
    → AgreeFrom lo m m'
    → IsChain fuel lo hi curr m
    → IsChain fuel lo hi curr m'
IsChain-agree zero lo hi curr m m' agree chain = absurd chain
IsChain-agree (suc fuel) lo hi curr m m' agree (inl end) = inl end
IsChain-agree (suc fuel) lo hi curr m m' agree (inr (from, room, rest)) =
    let (size, next) = agree curr from in
    inr (
      from,
      rw size room,
      rw (size, next)
          (IsChain-agree fuel (curr + header_size + (m curr).size) hi (m curr).next m m'
            (λ a le. agree a (omega (arith, from, le))) rest),
    )

-- A chain may start lower.
IsChain-lower :
    (fuel lo lo' hi curr : ℕ) (m : Headers)
    → lo' ≤ lo
    → IsChain fuel lo hi curr m
    → IsChain fuel lo' hi curr m
IsChain-lower zero lo lo' hi curr m le chain = absurd chain
IsChain-lower (suc fuel) lo lo' hi curr m le (inl end) = inl end
IsChain-lower (suc fuel) lo lo' hi curr m le (inr (from, room, rest)) =
    inr (omega (arith, from, le), room, rest)

-- A chain may have more fuel.
pub IsChain-more :
    (fuel lo hi curr : ℕ) (m : Headers)
    → IsChain fuel lo hi curr m
    → IsChain (suc fuel) lo hi curr m
IsChain-more zero lo hi curr m chain = absurd chain
IsChain-more (suc fuel) lo hi curr m (inl end) = inl end
IsChain-more (suc fuel) lo hi curr m (inr (from, room, rest)) =
    inr (from, room, IsChain-more fuel _ hi (m curr).next m rest)

-- The block itself behind its claim, and its rest.
module _ (fuel n lo hi p : ℕ) (m : Headers) (high : hi < 2 ^ 63) (from : lo ≤ p) (pos : p ≢ null)
    (room : p + header_size + (m p).size ≤ hi) (fit : n ≤ (m p).size)
    (rest : IsChain fuel (p + header_size + (m p).size) hi (m p).next m) where
  pub IsChain-split :
      (small : p + (m p).size < 2 ^ 63)
      → n + header_size < (m p).size
      → IsChain (suc (suc fuel)) lo hi p (split_at n p m small)
  IsChain-split small large =
      let q = p + header_size + n in
      let m' = split_at n p m small in
      let here : m' p ≡ record (m p) { next = q; size = n } = rw (eq→== p p refl) refl in
      let new : m' q
          ≡ record (m q) { next = (m p).next; free = 1; size = (m p).size - header_size - n } =
        rw (ne→== p q (λ e. omega arith), eq→== q q refl) refl in
      let agree : AgreeFrom (p + header_size + (m p).size) m m' =
        λ a le. rw (ne→== p a (λ e. omega arith), ne→== q a (λ e. omega arith)) (refl, refl) in
      let behind : IsChain fuel (q + header_size + ((m p).size - header_size - n)) hi (m p).next
          m' =
        IsChain-lower fuel (p + header_size + (m p).size) _ hi (m p).next m' (omega (arith, large))
          (IsChain-agree fuel _ hi (m p).next m m' agree rest) in
      inr (
        from,
        rw here (omega (arith, room, fit)),
        rw here (inr (omega arith, rw new (omega (arith, room, large)), rw new behind)),
      )

  pub IsChain-whole :
      (small : p + (m p).size < 2 ^ 63) → IsChain (suc fuel) lo hi p (taken_at n p m small)
  IsChain-whole small =
      let m' = taken_at n p m small in
      let agree : AgreeFrom 0 m m' = λ a le. elim (Bool-cases (p == a)) [
        | inl same ↦ rw (same, ==→eq p a same) (refl, refl)
        | inr other ↦ rw other (refl, refl)
      ] in
      IsChain-lower (suc fuel) lo lo hi p m' (omega arith) (
        IsChain-agree (suc fuel) lo hi p m m' (λ a le. agree a (omega arith))
          (inr (from, room, rest)))
