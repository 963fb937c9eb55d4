-- ===== src/Prelude/Missing.antt =====
-- Fewer values than numbers below `n` leave one of these numbers out.
use Prim.Native.Nat.{ℕ, zero, suc, ◌+◌, ◌<◌}
use mathlib.Core.Path.{◌≡◌, sym, ap, subst}
use mathlib.Core.Logic.{◌≢◌, ◌⊎◌, inl, inr}
use mathlib.Core.Option.{none, some}
use native.Mathlib.Omega.{arith}
use computersystems_monorepo.Prelude.Tests.{◌==◌, ==→eq, Bool-cases, Option-cases}
use computersystems_monorepo.Prelude.Loops.{
  find_from, find_from-some, find_from-none, AreDistinct, AreBelow, pigeonhole,
}
use computersystems_monorepo.Prelude.Arrays.{update}

-- Where `f` takes the value `r`, or 0.
place : (ℕ → ℕ) → (k r : ℕ) → ℕ
place f k r = elim (find_from f r 0 k) [ some j ↦ j | none ↦ 0 ]

module _ (f : ℕ → ℕ) (k : ℕ) where
  place-some : (r j : ℕ) → find_from f r 0 k ≡ some j → (place f k r < k) × (f (place f k r) ≡ r)
  unfolding place
  place-some r j e =
      let (_, below, at) = find_from-some f r 0 k j e in rw (e, place) (omega (arith, below), at)

  missing_from :
      (n : ℕ)
      → ((r : ℕ) × (r < n) × ((i : ℕ) → i < k → f i ≢ r))
        ⊎ ((r : ℕ) → r < n → (place f k r < k) × (f (place f k r) ≡ r))
  missing_from zero = inr (λ r lt. absurd (omega arith))
  missing_from (suc n) = elim (Option-cases (find_from f n 0 k)) [
    | inl out ↦
        inl (n, omega arith, λ i lt. find_from-none f n 0 k i out (omega arith) (omega arith))
    | inr (j, found) ↦ elim (missing_from n) [
      | inl (r, lt, out) ↦ inl (r, omega arith, out)
      | inr all ↦ inr λ r lt. elim (Bool-cases (r == n)) [
        | inl last ↦
            subst (λ x. (place f k x < k) × (f (place f k x) ≡ x)) (sym (==→eq r n last))
              (place-some n j found)
        | inr before ↦ all r (ground arith)
      ]
    ]
  ]

  pub missing : (n : ℕ) → k < n → (r : ℕ) × (r < n) × ((i : ℕ) → i < k → f i ≢ r)
  missing n lt = elim (missing_from n) [
    | inl found ↦ found
    | inr all ↦
        let distinct : AreDistinct (place f k) n =
          λ i j lo hi e. omega (arith, (all i (omega arith)).1, (all j hi).1, ap f e) in
        absurd (omega (arith, pigeonhole k n (place f k) distinct (λ i hi. (all i hi).0)))
  ]

-- `n` distinct numbers below `n` are all of them.
pub onto :
    (f : ℕ → ℕ) (n : ℕ)
    → AreDistinct f n
    → AreBelow f n n
    → (r : ℕ) → r < n
    → (k : ℕ) × (k < n) × (f k ≡ r)
onto f n distinct below r lt = elim (Option-cases (find_from f r 0 n)) [
  | inl out ↦
      let longer : AreDistinct (update f n r) (n + 1) =
        λ i j lo hi. ground (arith, distinct i j, find_from-none f r 0 n i out) in
      absurd (
        omega (arith, pigeonhole n (n + 1) (update f n r) longer (λ i hi. ground (arith, below i))))
  | inr (k, found) ↦ let (_, hk, at) = find_from-some f r 0 n k found in (k, omega (arith, hk), at)
]
