-- ===== src/SharedData/Runs.antt =====
-- Runs of the four threads that leave each of the values from 1 to 4.
use computersystems_monorepo.Prelude.{ℕ, zero, suc, ◌≤◌, ◌≡◌, ◌↔◌, subst, refl, arith}
use computersystems_monorepo.SharedData.{
  stored, State, load, store, loads, stores, created, Run, none_yet, ◌▸◌, IsJoined,
}
use computersystems_monorepo.SharedData.Range.{in_range}

abbrev left_one : State
left_one = store 3 0 (store 2 0 (store 1 0 (store 0 0 (load 3 (load 2 (load 1 (load 0 created)))))))

run_one : Run left_one
run_one =
    none_yet
    ▸ loads 0 (omega arith) refl
    ▸ loads 1 (omega arith) refl
    ▸ loads 2 (omega arith) refl
    ▸ loads 3 (omega arith) refl
    ▸ stores 0 0 (omega arith) refl
    ▸ stores 1 0 (omega arith) refl
    ▸ stores 2 0 (omega arith) refl
    ▸ stores 3 0 (omega arith) refl

abbrev left_two : State
left_two = store 3 1 (store 2 1 (store 1 1 (load 3 (load 2 (load 1 (store 0 0 (load 0 created)))))))

run_two : Run left_two
run_two =
    none_yet
    ▸ loads 0 (omega arith) refl
    ▸ stores 0 0 (omega arith) refl
    ▸ loads 1 (omega arith) refl
    ▸ loads 2 (omega arith) refl
    ▸ loads 3 (omega arith) refl
    ▸ stores 1 1 (omega arith) refl
    ▸ stores 2 1 (omega arith) refl
    ▸ stores 3 1 (omega arith) refl

abbrev left_three : State
left_three =
    store 3 2 (store 2 2 (load 3 (load 2 (store 1 1 (load 1 (store 0 0 (load 0 created)))))))

run_three : Run left_three
run_three =
    none_yet
    ▸ loads 0 (omega arith) refl
    ▸ stores 0 0 (omega arith) refl
    ▸ loads 1 (omega arith) refl
    ▸ stores 1 1 (omega arith) refl
    ▸ loads 2 (omega arith) refl
    ▸ loads 3 (omega arith) refl
    ▸ stores 2 2 (omega arith) refl
    ▸ stores 3 2 (omega arith) refl

abbrev left_four : State
left_four =
    store 3 3 (load 3 (store 2 2 (load 2 (store 1 1 (load 1 (store 0 0 (load 0 created)))))))

run_four : Run left_four
run_four =
    none_yet
    ▸ loads 0 (omega arith) refl
    ▸ stores 0 0 (omega arith) refl
    ▸ loads 1 (omega arith) refl
    ▸ stores 1 1 (omega arith) refl
    ▸ loads 2 (omega arith) refl
    ▸ stores 2 2 (omega arith) refl
    ▸ loads 3 (omega arith) refl
    ▸ stores 3 3 (omega arith) refl

-- A run to its end that leaves `n`.
abbrev pub Leaves : ℕ → Type 0
Leaves n = (s : State) × Run s × IsJoined s × (s.shared_data ≡ n)

IsJoined-at :
    (s : State)
    → s.place 0 ≡ stored
    → s.place 1 ≡ stored
    → s.place 2 ≡ stored
    → s.place 3 ≡ stored
    → IsJoined s
IsJoined-at s a b c d zero lt = a
IsJoined-at s a b c d (suc zero) lt = b
IsJoined-at s a b c d (suc (suc zero)) lt = c
IsJoined-at s a b c d (suc (suc (suc zero))) lt = d
IsJoined-at s a b c d (suc (suc (suc (suc t)))) lt = absurd (omega arith)

each_value : (n : ℕ) → 1 ≤ n → n ≤ 4 → Leaves n
each_value zero low high = absurd (omega arith)
each_value (suc zero) low high = (left_one, run_one, IsJoined-at left_one refl refl refl refl, refl)
each_value (suc (suc zero)) low high =
    (left_two, run_two, IsJoined-at left_two refl refl refl refl, refl)
each_value (suc (suc (suc zero))) low high =
    (left_three, run_three, IsJoined-at left_three refl refl refl refl, refl)
each_value (suc (suc (suc (suc zero)))) low high =
    (left_four, run_four, IsJoined-at left_four refl refl refl refl, refl)
each_value (suc (suc (suc (suc (suc n))))) low high = absurd (omega arith)

-- The values that the runs of the four threads can leave in the counter are 1, 2, 3 and 4.
pub counter_values : (n : ℕ) → Leaves n ↔ ((1 ≤ n) × (n ≤ 4))
counter_values n = (
  λ (s, run, joined, is). subst (λ n. (1 ≤ n) × (n ≤ 4)) is (in_range s run joined),
  λ (low, high). each_value n low high,
)
