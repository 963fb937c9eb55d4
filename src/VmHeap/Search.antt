-- ===== src/VmHeap/Search.antt =====
-- The search of thread_safe_malloc, and the claim of the block that it finds, on a chain of blocks.
use computersystems_monorepo.Prelude.{
  ℕ, zero, suc, ◌+◌, ◌^◌, ◌≤◌, ◌<◌, ◌≡◌, ◌≢◌, ◌⊎◌, refl, arith, true, false, inl, inr, eq→==, ne→==,
  ltb, ltb→lt, Bool-cases,
}
use computersystems_monorepo.VmHeap.Claim.{claim_split, claim_whole, taken_at}
use computersystems_monorepo.VmHeap.Layout.{IsChain, IsChain-more, IsChain-split, IsChain-whole}
use computersystems_monorepo.VmHeap.{
  null, header_size, Header, Headers, returns, fits, search, claim,
}

-- The headers `m'` hold a chain again, and are those of `m` below the block `p`.
abbrev IsReclaimed : (fuel lo hi curr p : ℕ) → Headers → Headers → Type 0
IsReclaimed fuel lo hi curr p m m' =
    IsChain (suc fuel) lo hi curr m' × ((a : ℕ) → a < p → m' a ≡ m a)

not-large : (a b : ℕ) → ltb a b ≡ false → b ≤ a
not-large a b e = ground arith

claim-IsReclaimed :
    (fuel n lo hi p : ℕ) (m : Headers)
    → hi < 2 ^ 63
    → lo ≤ p
    → p ≢ null
    → p + header_size + (m p).size ≤ hi
    → n ≤ (m p).size
    → IsChain fuel (p + header_size + (m p).size) hi (m p).next m
    → IsReclaimed (suc fuel) lo hi p p m (claim n p m).0
claim-IsReclaimed fuel n lo hi p m high from pos room fit rest =
    let small : p + (m p).size < 2 ^ 63 = omega (arith, high, room) in
    elim (Bool-cases (ltb (n + header_size) (m p).size)) [
      | inl test ↦
          let large = ltb→lt (n + header_size) (m p).size test in
          rw (claim_split n p m small large) (
            IsChain-split fuel n lo hi p m high from pos room fit rest small large,
            λ a lt.
                rw (ne→== p a (λ e. omega arith), ne→== (p + header_size + n) a (λ e. omega arith))
                  refl,
          )
      | inr test ↦ rw (claim_whole n p m small (not-large (n + header_size) (m p).size test) fit) (
        IsChain-more (suc fuel) lo hi p (taken_at n p m small)
            (IsChain-whole fuel n lo hi p m high from pos room fit rest small),
        λ a lt. rw (ne→== p a (λ e. omega arith)) refl,
      )
    ]

-- What the search gives on a chain: NULL, or a block of it that fits, whose claim leaves a chain.
abbrev pub IsFound : (fuel n lo hi curr p : ℕ) → Headers → Type 0
IsFound fuel n lo hi curr p m =
    (p ≡ null) ⊎ ((lo ≤ p) × IsReclaimed fuel lo hi curr p m (claim n p m).0)

fits-room : (n : ℕ) (b : Header) → fits n b ≡ true → n ≤ b.size
fits-room n b e = ground arith

IsFound-behind :
    (fuel n lo hi curr p : ℕ) (m : Headers)
    → lo ≤ curr
    → curr + header_size + (m curr).size ≤ hi
    → IsFound fuel n (curr + header_size + (m curr).size) hi (m curr).next p m
    → IsFound (suc fuel) n lo hi curr p m
IsFound-behind fuel n lo hi curr p m from room (inl none_found) = inl none_found
IsFound-behind fuel n lo hi curr p m from room (inr (behind, (chain, same))) =
    let here : (claim n p m).0 curr ≡ m curr = same curr (omega (arith, behind)) in
    inr (omega (arith, from, behind), (inr (from, rw here room, rw here chain), same))

pub search-IsFound :
    (fuel more n lo hi curr : ℕ) (m : Headers)
    → hi < 2 ^ 63
    → 1 ≤ lo
    → fuel ≤ more
    → IsChain fuel lo hi curr m
    → (p : ℕ) × (search more n curr m ≡ returns p) × IsFound fuel n lo hi curr p m
unfolding search
search-IsFound zero more n lo hi curr m high low enough chain = absurd chain
search-IsFound (suc fuel) zero n lo hi curr m high low enough chain = absurd (omega (arith, enough))
search-IsFound (suc fuel) (suc more) n lo hi curr m high low enough (inl end) =
    (null, rw (eq→== curr null end, search) refl, inl refl)
search-IsFound (suc fuel) (suc more) n lo hi curr m high low enough (inr (from, room, rest)) =
    let some_block = ne→== curr null (λ e. omega arith) in
    elim (Bool-cases (fits n (m curr))) [
      | inl fit ↦ (
        curr,
        rw (some_block, search, fit) refl,
        inr (
          from,
          claim-IsReclaimed fuel n lo hi curr m high from (λ e. omega arith) room
              (fits-room n (m curr) fit) rest,
        ),
      )
      | inr small ↦
          let (p, e, found) =
            search-IsFound fuel more n (curr + header_size + (m curr).size) hi (m curr).next m high
              (omega (arith, low, from)) (omega (arith, enough)) rest in
          (
            p,
            rw (some_block, search, small) e,
            IsFound-behind fuel n lo hi curr p m from room found,
          )
    ]
