-- ===== src/HeapThreads/Kept.antt =====
-- What every run of the start of PracticumV2/main.c keeps.
use computersystems_monorepo.Prelude.{
  ℕ, zero, suc, ◌+◌, ◌-◌, ◌*◌, ◌≤◌, ◌<◌, ◌≡◌, ◌≢◌, ◌==◌, arith, update, inl, inr, Bool-cases,
}
use computersystems_monorepo.SharedData.{num_threads}
use computersystems_monorepo.VmHeap.Keeps.{IsLaid}
use computersystems_monorepo.HeapThreads.{
  Main, creates, joins, creates_second, joins_second, simulates, World,
}
use computersystems_monorepo.HeapThreads.Calls.{first_left, second_left, IsBorn, IsEarly}

-- The steps that `main` has left, with those of the threads that it has still to create.
abbrev pub main_left : Main → ℕ
main_left (creates i) = 3 * (num_threads - i) + 64
main_left (joins i) = num_threads - i + 59
main_left (creates_second i) = 13 * (num_threads - i) + 6
main_left (joins_second i) = num_threads - i + 1
main_left simulates = 0

-- How many threads of each kind `main` has created.
abbrev pub first_born : Main → ℕ
first_born (creates i) = i
first_born (joins i) = num_threads
first_born (creates_second i) = num_threads
first_born (joins_second i) = num_threads
first_born simulates = num_threads

abbrev pub second_born : Main → ℕ
second_born (creates i) = 0
second_born (joins i) = 0
second_born (creates_second i) = i
second_born (joins_second i) = num_threads
second_born simulates = num_threads

-- The counters of the loops are within bounds, and no thread of the second kind was waited for.
abbrev pub IsWaiting : Main → Type 0
IsWaiting (creates i) = i ≤ num_threads
IsWaiting (joins i) = i ≤ num_threads
IsWaiting (creates_second i) = i ≤ num_threads
IsWaiting (joins_second i) = i ≡ 0
IsWaiting simulates = ⊥

abbrev pub total : (ℕ → ℕ) → ℕ
total f = f 0 + f 1 + f 2 + f 3

abbrev pub left : World → ℕ
left w =
    main_left w.main + total (λ t. first_left (w.first t)) + total (λ t. second_left (w.second t))

pub record Kept (n : ℕ) (w : World) : Type 0 where
  pub laid : IsLaid (suc (suc n)) w.shared.heap
  pub early : (t : ℕ) → IsEarly (w.second t)
  pub waiting : IsWaiting w.main
  pub first : (t : ℕ) → t < first_born w.main → IsBorn (w.first t)
  pub second : (t : ℕ) → t < second_born w.main → IsBorn (w.second t)
  pub budget : n + left w ≤ 76

below_four : (P : ℕ → Type 0) → P 0 → P 1 → P 2 → P 3 → (t : ℕ) → t < num_threads → P t
below_four P p₀ p₁ p₂ p₃ zero lt = p₀
below_four P p₀ p₁ p₂ p₃ (suc zero) lt = p₁
below_four P p₀ p₁ p₂ p₃ (suc (suc zero)) lt = p₂
below_four P p₀ p₁ p₂ p₃ (suc (suc (suc zero))) lt = p₃
below_four P p₀ p₁ p₂ p₃ (suc (suc (suc (suc t)))) lt = absurd (omega (arith, lt))

module _ {A : Type 0} (weight : A → ℕ) (f : ℕ → A) (a : A) where
  -- One of the four values changes in the sum.
  pub total-update :
      (t : ℕ)
      → t < num_threads
      → total (λ i. weight (update f t a i)) + weight (f t) ≡ total (λ i. weight (f i)) + weight a
  total-update =
      below_four
        (λ t.
          total (λ i. weight (update f t a i)) + weight (f t)
          ≡ total (λ i. weight (f i)) + weight a)
        (omega arith) (omega arith) (omega arith) (omega arith)

pub update-all :
    {A : Type 0} (P : A → Type 0) (f : ℕ → A) (t : ℕ) (a : A) (i : ℕ)
    → P a
    → (i ≢ t → P (f i))
    → P (update f t a i)
update-all P f t a i new old = elim (Bool-cases (t == i)) [
  | inl same ↦ rw same new
  | inr other ↦ rw other (old λ e. absurd (ground (arith, other, e)))
]
