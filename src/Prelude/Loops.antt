-- ===== src/Prelude/Loops.antt =====
-- Counted loops, linear searches, and the pigeonhole principle for arrays.
use Prim.Native.Nat.{ℕ, zero, suc, ◌+◌, ◌≤◌, ◌<◌}
use mathlib.Core.Path.{◌≡◌, sym}
use mathlib.Core.Logic.{◌≢◌, inl, inr}
use mathlib.Core.Bool.{true, false}
use mathlib.Core.Option.{Option, none, some}
use native.Mathlib.Omega.{arith}
use computersystems_monorepo.Prelude.Tests.{◌==◌, ==→eq, ltb, ltb→lt, Bool-cases, Option-cases}
use computersystems_monorepo.Prelude.Arrays.{update}

-- `for (k = i; k < i + n; k++) s = body(k, s);`
unfoldable pub repeat_from {ℓ} : {S : Type ℓ} → (ℕ → S → S) → ℕ → ℕ → S → S
repeat_from body i zero s = s
repeat_from body i (suc n) s = repeat_from body (i + 1) n (body i s)

pub repeat_from_inv {ℓ κ} :
    {S : Type ℓ} (P : ℕ → S → Type κ) (body : ℕ → S → S) (i n j : ℕ) (s : S)
    → i + n ≡ j
    → ((k : ℕ) (t : S) → i ≤ k → k < j → P k t → P (k + 1) (body k t))
    → P i s
    → P j (repeat_from body i n s)
unfolding repeat_from
repeat_from_inv P body i zero j s e keep start = let same : i ≡ j = omega arith in rw same at start
repeat_from_inv P body i (suc n) j s e keep start =
    repeat_from_inv P body (i + 1) n j (body i s) (omega arith)
      (λ k t lo hi h. keep k t (omega arith) hi h) (keep i s (omega arith) (omega arith) start)

-- `for (k = i; k < i + n; k++) if (arr[k] == key) break;`, with the index where it stopped.
unfoldable pub find_from : (ℕ → ℕ) → ℕ → ℕ → ℕ → Option ℕ
find_from arr key i zero = none
find_from arr key i (suc n) = elim (arr i == key) [
  | true ↦ some i
  | false ↦ find_from arr key (i + 1) n
]

pub find_from-some :
    (arr : ℕ → ℕ) (key i n j : ℕ)
    → find_from arr key i n ≡ some j
    → (i ≤ j) × (j < i + n) × (arr j ≡ key)
unfolding find_from
find_from-some arr key i zero j h = cc
find_from-some arr key i (suc n) j h = elim (Bool-cases (arr i == key)) [
  | inl hit ↦ ground arith
  | inr miss ↦ ground (arith, find_from-some arr key (i + 1) n j)
]

pub find_from-none :
    (arr : ℕ → ℕ) (key i n k : ℕ) → find_from arr key i n ≡ none → i ≤ k → k < i + n → arr k ≢ key
unfolding find_from
find_from-none arr key i zero k h lo hi = absurd (omega arith)
find_from-none arr key i (suc n) k h lo hi = elim (Bool-cases (arr i == key)) [
  | inl hit ↦ ground arith
  | inr miss ↦ elim (Bool-cases (i == k)) [
    | inl here ↦ ground arith
    | inr later ↦ ground (arith, find_from-none arr key (i + 1) n k)
  ]
]

abbrev pub AreDistinct : (ℕ → ℕ) → ℕ → Type 0
AreDistinct f n = (i j : ℕ) → i < j → j < n → f i ≢ f j

abbrev pub AreBelow : (ℕ → ℕ) → ℕ → ℕ → Type 0
AreBelow f n m = (i : ℕ) → i < n → f i < m

-- Two indices with one value are one index.
distinct_injective : (f : ℕ → ℕ) (n i j : ℕ) → AreDistinct f n → i < n → j < n → i ≢ j → f i ≢ f j
distinct_injective f n i j d hi hj ne e = elim (Bool-cases (ltb i j)) [
  | inl lt ↦ d i j (ltb→lt i j lt) hj e
  | inr ge ↦ d j i (ground arith) hi (sym e)
]

-- Fill place `j`, which held the largest value, with the last entry.
module _ (f : ℕ → ℕ) (m n j : ℕ) (d : AreDistinct f (suc n)) (b : AreBelow f (suc n) (suc m)) where
  module _ (hj : j < suc n) (top : f j ≡ m) where
    filled_distinct : AreDistinct (update f j (f n)) n
    filled_distinct i k lt hk = ground (
      arith,
      distinct_injective f (suc n) i k d (omega arith) (omega arith) (omega arith),
      distinct_injective f (suc n) i n d (omega arith) (omega arith) (omega arith),
      distinct_injective f (suc n) n k d (omega arith) (omega arith) (omega arith),
    )

    not_top : (i : ℕ) → i < suc n → i ≢ j → f i < m
    not_top i hi ne = omega (arith, b i hi, distinct_injective f (suc n) i j d hi hj ne)

    filled_below : AreBelow (update f j (f n)) n m
    filled_below i hi = elim (Bool-cases (j == i)) [
      | inl here ↦ rw here (not_top n (omega arith) (ground arith))
      | inr other ↦ rw other (not_top i (omega arith) (ground arith))
    ]

-- `n` distinct numbers below `m` are at most `m`.
pub pigeonhole : (m n : ℕ) (f : ℕ → ℕ) → AreDistinct f n → AreBelow f n m → n ≤ m
pigeonhole m zero f d b = omega arith
pigeonhole zero (suc n) f d b = absurd (omega (arith, b 0 (omega arith)))
pigeonhole (suc m) (suc n) f d b = elim (Option-cases (find_from f m 0 (suc n))) [
  | inl missing ↦
      let lower : AreBelow f (suc n) m = λ i hi.
        omega (arith, b i hi, find_from-none f m 0 (suc n) i missing (omega arith) (omega arith)) in
      omega (arith, pigeonhole m (suc n) f d lower)
  | inr (j, found) ↦
      let (_, hj, top) = find_from-some f m 0 (suc n) j found in
      omega (
        arith,
        pigeonhole m n (update f j (f n)) (filled_distinct f m n j d b (omega arith) top)
            (filled_below f m n j d b (omega arith) top),
      )
]

-- One more round of a search looks at one more place.
find_from-extend :
    (arr : ℕ → ℕ) (key i n j : ℕ)
    → i + n ≡ j
    → find_from arr key i (suc n) ≡ elim (find_from arr key i n) [
      | some k ↦ some k
      | none ↦ elim (arr j == key) [ true ↦ some j | false ↦ none ]
    ]
unfolding find_from
find_from-extend arr key i zero j e = let same : i ≡ j = omega arith in rw same
find_from-extend arr key i (suc n) j e = elim (Bool-cases (arr i == key)) [
  | inl hit ↦ ground (arith, hit)
  | inr miss ↦ ground (arith, find_from-extend arr key (i + 1) n j (omega arith))
]

pub find_from-next :
    (arr : ℕ → ℕ) (key n : ℕ)
    → find_from arr key 0 (n + 1) ≡ elim (find_from arr key 0 n) [
      | some k ↦ some k
      | none ↦ elim (arr n == key) [ true ↦ some n | false ↦ none ]
    ]
find_from-next arr key n =
    let next : n + 1 ≡ suc n = omega arith in rw next (find_from-extend arr key 0 n n (omega arith))

-- A loop that writes `g i` to place `i`, for `i` below `n`.
pub fill-lt {ℓ} :
    {A : Type ℓ} (g : ℕ → A) (arr : ℕ → A) (n k : ℕ)
    → k < n
    → repeat_from (λ i a. update a i (g i)) 0 n arr k ≡ g k
fill-lt g arr n k lt =
    repeat_from_inv (λ j a. (i : ℕ) → i < j → a i ≡ g i) (λ i a. update a i (g i)) 0 n n arr
      (omega arith)
      (λ j a lo hi h i below. elim (Bool-cases (j == i)) [
        | inl here ↦ rw (here, ==→eq j i here)
        | inr other ↦ rw other (h i (ground arith))
      ])
      (λ i below. absurd (omega arith)) k lt
