-- ===== src/Workers/Progress.antt =====
-- How far the index has moved, and that it leaves the array.
use computersystems_monorepo.Prelude.{
  ℕ, zero, suc, ◌+◌, ◌*◌, ◌/◌, ◌%◌, ◌≤◌, ◌<◌, ◌≡◌, ◌≢◌, ◌⊎◌, ◌∙◌, sym, ap, refl, arith, ◌==◌,
  Bool-cases, inl, inr, update, ==→eq, eq→==, ne→==, ltb, ltb→lt,
}
use computersystems_monorepo.Workers.{
  threads, arr_size, Phase, outside, locked, written, advanced, State, stride, lock, write, advance,
  unlock, Step, locks, writes, advances, unlocks, start, Reach, started, stepped,
}

abbrev sum_below : ℕ → (ℕ → ℕ) → ℕ
sum_below zero f = 0
sum_below (suc n) f = f n + sum_below n f

sum_same : (n : ℕ) (f g : ℕ → ℕ) → ((u : ℕ) → u < n → g u ≡ f u) → sum_below n g ≡ sum_below n f
sum_same zero f g same = refl
sum_same (suc n) f g same =
    omega (arith, same n (omega arith), sum_same n f g (λ u lt. same u (omega arith)))

-- Two sums that differ in one summand.
sum_change :
    (n t : ℕ) (f g : ℕ → ℕ)
    → t < n
    → ((u : ℕ) → u ≢ t → g u ≡ f u)
    → sum_below n g + f t ≡ sum_below n f + g t
sum_change zero t f g lt same = absurd (omega arith)
sum_change (suc n) t f g lt same = elim (Bool-cases (t == n)) [
  | inl last ↦
      let here = ==→eq t n last in
      let rest = sum_same n f g (λ u below. same u (λ e. omega (arith, here, e))) in
      rw here (omega (arith, rest))
  | inr before ↦
      omega (arith, same n (λ e. ground (arith, e)), sum_change n t f g (ground arith) same)
]

-- What `k` sections of a thread add to the index, and what a thread has added.
abbrev added : ℕ → ℕ
added k = k / 2 * 3 + k % 2

abbrev share : Phase → ℕ → ℕ
share advanced k = added (k + 1)
share outside k = added k
share locked k = added k
share written k = added k

abbrev shares : State → ℕ → ℕ
shares s t = share (s.phase t) (s.sections t)

added-stride : (k : ℕ) → added (k + 1) ≡ added k + stride k
added-stride k = ground arith

module _ (s s' : State) (t : ℕ) (lt : t < threads) where
  -- A step of thread `t` changes its share only.
  total_change :
      ((u : ℕ) → u ≢ t → s'.phase u ≡ s.phase u)
      → ((u : ℕ) → u ≢ t → s'.sections u ≡ s.sections u)
      → sum_below threads (shares s') + shares s t ≡ sum_below threads (shares s) + shares s' t
  total_change phases sections =
      sum_change threads t (shares s) (shares s') lt (λ u ne. rw (phases u ne, sections u ne) refl)

pub update-other : {A : Type 0} (f : ℕ → A) (t u : ℕ) (a : A) → u ≢ t → update f t a u ≡ f u
update-other f t u a ne = rw (ne→== t u (λ e. ne (sym e))) refl

pub update-here : {A : Type 0} (f : ℕ → A) (t : ℕ) (a : A) → update f t a t ≡ a
update-here f t a = rw (eq→== t t refl) refl

abbrev total : State → ℕ
total s = sum_below threads (shares s)

module _ (s : State) (t : ℕ) (lt : t < threads) where
  total_moved :
      (old p : Phase) (s' : State)
      → s.phase t ≡ old
      → s'.phase ≡ update s.phase t p
      → s'.sections ≡ s.sections
      → total s' + share old (s.sections t) ≡ total s + share p (s.sections t)
  total_moved old p s' was phase sections =
      ap (λ q. total s' + share q (s.sections t)) (sym was)
      ∙ total_change s s' t lt (λ u ne. rw phase (update-other s.phase t u p ne))
          (λ u ne. rw sections refl)
      ∙ rw (phase, sections, update-here s.phase t p) refl

  total-unlock : s.phase t ≡ advanced → total (unlock t s) ≡ total s
  total-unlock was =
      let change =
        total_change s (unlock t s) t lt (λ u ne. update-other s.phase t u outside ne)
          (λ u ne. update-other s.sections t u (s.sections t + 1) ne) in
      let before : shares s t ≡ added (s.sections t + 1) = ap (λ q. share q (s.sections t)) was in
      let behind : shares (unlock t s) t ≡ added (s.sections t + 1) =
        rw (update-here s.phase t outside, update-here s.sections t (s.sections t + 1)) refl in
      omega (arith, change, before, behind)

Step-total : (s s' : State) → Step s s' → s.aindex ≡ total s → s'.aindex ≡ total s'
Step-total s s' (locks t lt more e free) h =
    omega (arith, h, total_moved s t lt outside locked (lock t s) e refl refl)
Step-total s s' (writes t lt e) h =
    omega (arith, h, total_moved s t lt locked written (write t s) e refl refl)
Step-total s s' (advances t lt e) h = omega (
  arith,
  h,
  total_moved s t lt written advanced (advance t s) e refl refl,
  added-stride (s.sections t),
)
Step-total s s' (unlocks t lt e) h = omega (arith, h, total-unlock s t lt e)

Reach-total : (s : State) → Reach s → s.aindex ≡ total s
unfolding start
Reach-total s started = refl
Reach-total s' (stepped s _ before step) = Step-total s s' step (Reach-total s before)

-- All threads have come to the end of their loops.
abbrev pub IsFinished : State → Type 0
IsFinished s = (t : ℕ) → t < threads → (s.phase t ≡ outside) × (s.sections t ≡ 20)

-- Whatever the order of the steps, the index is 150 when the threads are finished.
pub finished_index : (s : State) → Reach s → IsFinished s → s.aindex ≡ 150
finished_index s reach done =
    Reach-total s reach
    ∙ sum_same threads (λ _. 30) (shares s)
        (λ t lt. let (phase, sections) = done t lt in rw (phase, sections) refl)

-- The run goes through the state `v`.
pub data Visits (v : State) : (s : State) → Reach s → Type 0 where
  now : (run : Reach v) → Visits v v run
  earlier :
      (s s' : State) (run : Reach s) (step : Step s s')
      → Visits v s run
      → Visits v s' (stepped s s' run step)

-- The run goes through a state in which a thread has just written outside of the array.
abbrev pub WroteOutside : (s : State) → Reach s → Type 0
WroteOutside s run =
    (v : State) × (t : ℕ) × Visits v s run × (v.phase t ≡ written) × (arr_size ≤ v.aindex)

step-low :
    (s s' : State) (run : Reach s) (step : Step s s')
    → s.aindex < arr_size + 2
    → (s'.aindex < arr_size + 2) ⊎ WroteOutside s' (stepped s s' run step)
step-low s s' run (locks t lt more e free) low = inl low
step-low s s' run (writes t lt e) low = inl low
step-low s s' run (unlocks t lt e) low = inl low
step-low s s' run (advances t lt e) low = elim (Bool-cases (ltb s.aindex arr_size)) [
  | inl inside ↦ inl (ground (arith, ltb→lt _ _ inside))
  | inr past ↦ inr (s, t, earlier s s' run (advances t lt e) (now run), e, ground arith)
]

run-low : (s : State) (run : Reach s) → (s.aindex < arr_size + 2) ⊎ WroteOutside s run
unfolding start
run-low s started = inl (omega arith)
run-low s' (stepped s _ run step) = elim (run-low s run) [
  | inl low ↦ step-low s s' run step low
  | inr (v, t, visits, phase, outside_) ↦ inr (v, t, earlier s s' run step visits, phase, outside_)
]

-- Every run in which the threads finish goes through a state in which a thread has just written to
-- an index that the array does not have.
pub finished_outside : (s : State) (run : Reach s) → IsFinished s → WroteOutside s run
finished_outside s run done = elim (run-low s run) [
  | inl low ↦ absurd (omega (arith, low, finished_index s run done))
  | inr bad ↦ bad
]

-- A step changes no place below the index, so no thread undoes what another has written.
pub Step-keeps :
    (s s' : State) (j : ℕ)
    → Step s s'
    → j < s.aindex
    → (s'.arr j ≡ s.arr j) × (s.aindex ≤ s'.aindex)
Step-keeps s s' j (locks t lt more e free) below = (refl, omega arith)
Step-keeps s s' j (writes t lt e) below =
    (update-other s.arr s.aindex j _ (λ same. omega (arith, same)), omega arith)
Step-keeps s s' j (advances t lt e) below = (refl, ground arith)
Step-keeps s s' j (unlocks t lt e) below = (refl, omega arith)
