-- ===== src/Counting/Ends.antt =====
-- Every run of a group of threads goes on until both have ended, and the number of steps is the same
-- for all of them.
use mathlib.Core.Bool.{false≢true}
use mathlib.Core.Option.{none-ne-some}
use computersystems_monorepo.Prelude.{
  ℕ, zero, suc, ◌+◌, ◌-◌, ◌*◌, ◌≤◌, ◌<◌, ◌≡◌, ◌⊎◌, ◌∙◌, sym, ap, subst, refl, arith, true, leb,
  Bool-cases, inl, inr, none, some, update, Option-cases, List,
}
use computersystems_monorepo.Posix.{Bytes}
use computersystems_monorepo.Counting.{
  count_to, Phase, waiting, testing, raised, told, ended, State, Step, locks, raises, tells,
  reports, unlocks, Run, stops, goes, create, IsJoined, lock, raise, tell, report, unlock,
}
use computersystems_monorepo.Counting.Steps.{is_inside, IsCounting}
use computersystems_monorepo.Counting.Group.{Run-IsCounting}

-- The steps that a thread has before it but for those that raise `i`, and what a round takes.
abbrev left : Phase → ℕ
left waiting = 2
left testing = 1
left raised = 3
left told = 2
left ended = 0

abbrev steps_left : State → ℕ
steps_left s = 3 * (count_to - s.i) + left (s.phase 0) + left (s.phase 1)

-- A thread that moves from `p` to `q` changes the sum by what it has before it.
left-update :
    (phase : ℕ → Phase) (t : ℕ) (q : Phase)
    → t < 2
    → left (update phase t q 0) + left (update phase t q 1) + left (phase t)
      ≡ left (phase 0) + left (phase 1) + left q
left-update phase zero q lt = omega arith
left-update phase (suc zero) q lt = omega arith
left-update phase (suc (suc t)) q lt = absurd (omega arith)

module _ (s : State) (t : ℕ) (lt : t < 2) where
  moves :
      (p q : Phase)
      → s.phase t ≡ p
      → left (update s.phase t q 0) + left (update s.phase t q 1) + left p
        ≡ left (s.phase 0) + left (s.phase 1) + left q
  moves p q at =
      ap (λ p. left (update s.phase t q 0) + left (update s.phase t q 1) + left p) (sym at)
      ∙ left-update s.phase t q lt

-- Each step takes one off.
Step-left : (s s' : State) → Step s s' → steps_left s ≡ suc (steps_left s')
Step-left s s' (locks t lt at free) = omega (arith, moves s t lt waiting testing at)
Step-left s s' (raises t lt at more) = omega (arith, more, moves s t lt testing raised at)
Step-left s s' (tells t lt at) = omega (arith, moves s t lt raised told at)
Step-left s s' (reports t lt at) = omega (arith, moves s t lt told testing at)
Step-left s s' (unlocks t lt at enough) = omega (arith, moves s t lt testing ended at)

Run-left : (s₀ s : State) (n : ℕ) → Run s₀ n s → steps_left s₀ ≡ steps_left s + n
Run-left s₀ s zero stops = omega arith
Run-left s₀ s (suc n) (goes _ s' _ run step) =
    omega (arith, Run-left s₀ s' n run, Step-left s' s step)

Outside-cases : (p : Phase) → (p ≡ waiting) ⊎ (p ≡ ended) ⊎ (is_inside p ≡ true)
Outside-cases waiting = inl refl
Outside-cases ended = inr (inl refl)
Outside-cases testing = inr (inr refl)
Outside-cases raised = inr (inr refl)
Outside-cases told = inr (inr refl)

abbrev Next : State → Type 0
Next s = (s' : State) × Step s s'

module _ (s : State) where
  -- A thread between lock and unlock has a step.
  inside-Next : (t : ℕ) → t < 2 → (p : Phase) → s.phase t ≡ p → is_inside p ≡ true → Next s
  inside-Next t lt waiting at inside = absurd (false≢true inside)
  inside-Next t lt testing at inside = elim (Bool-cases (leb count_to s.i)) [
    | inl enough ↦ (unlock t s, unlocks t lt at (ground arith))
    | inr more ↦ (raise t s, raises t lt at (ground arith))
  ]
  inside-Next t lt raised at inside = (tell t s, tells t lt at)
  inside-Next t lt told at inside = (report t s, reports t lt at)
  inside-Next t lt ended at inside = absurd (false≢true inside)

  module _ (free : s.mutex ≡ none) where
    -- Where the mutex is free, a thread waits or has ended.
    free-Next :
        (t : ℕ)
        → t < 2
        → (is_inside (s.phase t) ≡ true → s.mutex ≡ some t)
        → (s.phase t ≡ ended) ⊎ Next s
    free-Next t lt holds = elim (Outside-cases (s.phase t)) [
      | inl waits ↦ inr (lock t s, locks t lt waits free)
      | inr (inl done) ↦ inl done
      | inr (inr inside) ↦ absurd (none-ne-some t (sym free ∙ holds inside))
    ]

  both_ended : s.phase 0 ≡ ended → s.phase 1 ≡ ended → IsJoined s
  both_ended first second zero lt = first
  both_ended first second (suc zero) lt = second
  both_ended first second (suc (suc t)) lt = absurd (omega arith)

  -- Before both threads have ended, one of them has a step.
  counting-Next : (i : ℕ) (out : List Bytes) → IsCounting i out s → IsJoined s ⊎ Next s
  counting-Next i out h = elim (Option-cases s.mutex) [
    | inr (t, by_t) ↦ inr (inside-Next t (h.held t by_t).0 (s.phase t) refl (h.held t by_t).1)
    | inl free ↦ elim (free-Next free 0 (omega arith) (h.holds 0)) [
      | inr next ↦ inr next
      | inl first ↦ elim (free-Next free 1 (omega arith) (h.holds 1)) [
        | inr next ↦ inr next
        | inl second ↦ inl (both_ended first second)
      ]
    ]
  ]

Run-first : (s s' s'' : State) (n : ℕ) → Step s s' → Run s' n s'' → Run s (suc n) s''
Run-first s s' s'' zero step stops = goes 0 s s' stops step
Run-first s s' s'' (suc n) step (goes _ s₁ _ run last) =
    goes (suc n) s₁ s'' (Run-first s s' s₁ n step run) last

joined-left : (s : State) → count_to ≤ s.i → IsJoined s → steps_left s ≡ 0
joined-left s enough joined = rw (joined 0 (omega arith), joined 1 (omega arith)) (omega arith)

module _ (i : ℕ) (out : List Bytes) where
  abbrev begin : State
  begin = create i none out

  enough_of : (n : ℕ) (s : State) → Run begin n s → IsJoined s → count_to ≤ s.i
  enough_of n s run joined = (Run-IsCounting i out n s run).full 0 (joined 0 (omega arith))

  goes_on :
      (fuel n : ℕ) (s : State)
      → Run begin n s
      → steps_left s ≤ fuel
      → (s' : State) × Run s (steps_left s) s' × IsJoined s'
  goes_on zero n s run enough = elim (counting-Next s i out (Run-IsCounting i out n s run)) [
    | inl joined ↦ (s, subst (λ m. Run s m s) (omega arith) stops, joined)
    | inr (s', step) ↦ absurd (omega (arith, Step-left s s' step))
  ]
  goes_on (suc fuel) n s run enough = elim (counting-Next s i out (Run-IsCounting i out n s run)) [
    | inl joined ↦ (
      s,
      subst (λ m. Run s m s) (sym (joined-left s (enough_of n s run joined) joined)) stops,
      joined,
    )
    | inr (s', step) ↦
        let left = Step-left s s' step in
        let (s'', rest, joined) =
          goes_on fuel (suc n) s' (goes n s s' run step) (omega (arith, left)) in
        (s'', subst (λ m. Run s m s'') (sym left) (Run-first s s' s'' _ step rest), joined)
  ]

  -- Every run of a group goes on until both threads have ended, and where they have, it has taken
  -- three steps for each count that was missing to 30, and four.
  pub group_ends :
      (n : ℕ) (s : State)
      → Run begin n s
      → ((m : ℕ) × (s' : State) × Run s m s' × IsJoined s')
        × (IsJoined s → n ≡ 3 * (count_to - i) + 4)
  group_ends n s run = (
    let (s', rest, joined) = goes_on (steps_left s) n s run (omega arith) in
        (steps_left s, s', rest, joined),
    λ joined.
        omega (arith, Run-left begin s n run, joined-left s (enough_of n s run joined) joined),
  )
