-- ===== src/Paging/Flags.antt =====
-- The page flags, on a status byte: a flag reads back as it was set, and no other flag changes.
use computersystems_monorepo.Prelude.{
  ℕ, zero, suc, ◌-◌, ◌<◌, ◌≡◌, ◌≢◌, refl, arith, Bool, true, false, not, ◌&&◌, ◌==◌, bit_and,
  bit_or, Bool-cases, inl, inr, eq→==,
}
use computersystems_monorepo.Paging.{
  Statuses, used_bit, dirty_bit, is_page_used, is_page_dirty, set_bit, set_page_used,
  set_page_dirty,
}

-- A test holds for all numbers below `n`.
all_below : ℕ → (ℕ → Bool) → Bool
all_below zero test = true
all_below (suc n) test = test n && all_below n test

all_below-at : (n : ℕ) (test : ℕ → Bool) (i : ℕ) → all_below n test ≡ true → i < n → test i ≡ true
unfolding all_below
all_below-at zero test i all lt = absurd (omega arith)
all_below-at (suc n) test i all lt = elim (Bool-cases (i == n)) [
  | inl last ↦ ground arith
  | inr before ↦ all_below-at n test i (ground arith) (ground arith)
]

abbrev has : ℕ → ℕ → Bool
has bit b = not (bit_and b bit == 0)

abbrev same : Bool → Bool → Bool
same true b = b
same false b = not b

-- What setting and clearing `bit` does to both flags of the byte `b`.
abbrev sets : (bit other : ℕ) → ℕ → Bool
sets bit other b =
    has bit (bit_or b bit)
    && not (has bit (bit_and b (255 - bit)))
    && same (has other b) (has other (bit_or b bit))
    && same (has other b) (has other (bit_and b (255 - bit)))

used_bytes : (b : ℕ) → b < 256 → sets used_bit dirty_bit b ≡ true
unfolding all_below
used_bytes b lt = all_below-at 256 (sets used_bit dirty_bit) b refl lt

dirty_bytes : (b : ℕ) → b < 256 → sets dirty_bit used_bit b ≡ true
unfolding all_below
dirty_bytes b lt = all_below-at 256 (sets dirty_bit used_bit) b refl lt

same-eq : (a b : Bool) → same a b ≡ true → b ≡ a
same-eq true b e = e
same-eq false true e = absurd cc
same-eq false false e = refl

-- One flag of a byte, with the other as it was.
set_bit-flags :
    (bit other p : ℕ) (v : Bool) (pageing : Statuses)
    → sets bit other (pageing p) ≡ true
    → (has bit (set_bit bit p v pageing p) ≡ v)
      × (has other (set_bit bit p v pageing p) ≡ has other (pageing p))
unfolding set_bit
set_bit-flags bit other p true pageing e =
    rw (eq→== p p refl) (ground arith, same-eq _ _ (ground arith))
set_bit-flags bit other p false pageing e =
    rw (eq→== p p refl) (ground arith, same-eq _ _ (ground arith))

set_bit-others :
    (bit p q : ℕ) (v : Bool) (pageing : Statuses) → q ≢ p → set_bit bit p v pageing q ≡ pageing q
unfolding set_bit
set_bit-others bit p q true pageing ne = ground arith
set_bit-others bit p q false pageing ne = ground arith

-- On a status byte `set_page_used` and `set_page_dirty` set their flag to the value given, keep the
-- other flag of the page, and leave every other page.
pub set_page_flags :
    (p : ℕ) (v : Bool) (pageing : Statuses)
    → pageing p < 256
    → let u = set_page_used p v pageing in
      let d = set_page_dirty p v pageing in
      (is_page_used p u ≡ v)
      × (is_page_dirty p u ≡ is_page_dirty p pageing)
      × (is_page_dirty p d ≡ v)
      × (is_page_used p d ≡ is_page_used p pageing)
      × ((q : ℕ) → q ≢ p → (u q ≡ pageing q) × (d q ≡ pageing q))
unfolding set_page_used set_page_dirty
set_page_flags p v pageing byte =
    let (used, dirty_kept) =
      set_bit-flags used_bit dirty_bit p v pageing (used_bytes (pageing p) byte) in
    let (dirty, used_kept) =
      set_bit-flags dirty_bit used_bit p v pageing (dirty_bytes (pageing p) byte) in
    (
      used,
      dirty_kept,
      dirty,
      used_kept,
      λ q ne. (set_bit-others used_bit p q v pageing ne, set_bit-others dirty_bit p q v pageing ne),
    )
