-- ===== src/VmHeap/Claim.antt =====
-- The two ways in which thread_safe_malloc takes a block that fits, where no address wraps.
use computersystems_monorepo.Prelude.{
  ℕ, ◌+◌, ◌-◌, ◌%◌, ◌^◌, ◌≤◌, ◌<◌, ◌≡◌, refl, arith, update, lt→ltb, le→ltb,
}
use computersystems_monorepo.VmHeap.{header_size, Headers, claim}

module _ (n p : ℕ) (m : Headers) (small : p + (m p).size < 2 ^ 63) where
  -- The headers behind a split: the block keeps its flag and its data pointer.
  abbrev pub split_at : Headers
  split_at =
      update
        (update m (p + header_size + n) (record (m (p + header_size + n)) {
          next = (m p).next;
          free = 1;
          size = (m p).size - header_size - n;
        }))
        p (record (m p) { next = p + header_size + n; size = n })

  -- A larger block is split, and its old data pointer is the result.
  pub claim_split : n + header_size < (m p).size → claim n p m ≡ (split_at, (m p).data_)
  unfolding claim
  claim_split room =
      let need : (n + header_size) % 2 ^ 64 ≡ n + header_size = omega arith in
      let new : (p + header_size + n) % 2 ^ 64 ≡ p + header_size + n = omega arith in
      rw (need, new, lt→ltb (n + header_size) (m p).size room) refl

  abbrev pub taken_at : Headers
  taken_at = update m p (record (m p) { free = 0; data_ = p + header_size })

  -- A block without room for another header is taken whole.
  pub claim_whole :
      (m p).size ≤ n + header_size → n ≤ (m p).size → claim n p m ≡ (taken_at, p + header_size)
  unfolding claim
  claim_whole tight room =
      let need : (n + header_size) % 2 ^ 64 ≡ n + header_size = omega arith in
      let here : (p + header_size) % 2 ^ 64 ≡ p + header_size = omega arith in
      rw (need, here, le→ltb (n + header_size) (m p).size tight) refl
