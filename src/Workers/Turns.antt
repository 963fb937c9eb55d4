-- ===== src/Workers/Turns.antt =====
-- The run in which the threads take their sections one after the other: the workers can finish.
use computersystems_monorepo.Prelude.{
  ℕ, zero, suc, ◌+◌, ◌≤◌, ◌<◌, ◌≡◌, ◌≢◌, ◌∙◌, refl, arith, ◌==◌, Bool-cases, inl, inr, none, update,
  ==→eq,
}
use computersystems_monorepo.Workers.{
  threads, outside, locked, written, advanced, State, lock, write, advance, unlock, locks, writes,
  advances, unlocks, start, Reach, started, stepped,
}
use computersystems_monorepo.Workers.Progress.{IsFinished, update-here, update-other}

turn : ℕ → State → State
turn t s = unlock t (advance t (write t (lock t s)))

turns : (t n : ℕ) → State → State
turns t zero s = s
turns t (suc n) s = turns t n (turn t s)

-- No thread is in its section.
IsIdle : State → Type 0
IsIdle s = (s.mutex ≡ none) × ((u : ℕ) → s.phase u ≡ outside)

module _ (s : State) (t : ℕ) where
  turn-Reach : Reach s → IsIdle s → t < threads → s.sections t < 20 → Reach (turn t s)
  unfolding turn IsIdle
  turn-Reach reach (free, out) lt more =
      stepped _ _
        (stepped _ _
          (stepped _ _ (stepped _ _ reach (locks t lt more (out t) free))
            (writes t lt (update-here s.phase t locked)))
          (advances t lt (update-here (update s.phase t locked) t written)))
        (unlocks t lt (update-here (update (update s.phase t locked) t written) t advanced))

  turn-IsIdle : IsIdle s → IsIdle (turn t s)
  unfolding turn IsIdle
  turn-IsIdle (free, out) = (
    refl,
    λ u. elim (Bool-cases (t == u)) [ inl here ↦ rw here refl | inr other ↦ rw other (out u) ],
  )

  turn-here : (turn t s).sections t ≡ s.sections t + 1
  unfolding turn
  turn-here = update-here s.sections t (s.sections t + 1)

  turn-others : (u : ℕ) → u ≢ t → (turn t s).sections u ≡ s.sections u
  unfolding turn
  turn-others u ne = update-other s.sections t u (s.sections t + 1) ne

abbrev Turned : (t n : ℕ) → (s s' : State) → Type 0
Turned t n s s' =
    Reach s'
    × IsIdle s'
    × (s'.sections t ≡ s.sections t + n)
    × ((u : ℕ) → u ≢ t → s'.sections u ≡ s.sections u)

turns-Turned :
    (t n : ℕ) (s : State)
    → t < threads
    → s.sections t + n ≤ 20
    → Reach s
    → IsIdle s
    → Turned t n s (turns t n s)
unfolding turns
turns-Turned t zero s lt more reach idle = (reach, idle, omega arith, λ u ne. refl)
turns-Turned t (suc n) s lt more reach idle =
    let here : (turn t s).sections t ≡ s.sections t + 1 = turn-here s t in
    let (r, i, same, others) =
      turns-Turned t n (turn t s) lt (omega (arith, here))
        (turn-Reach s t reach idle lt (omega arith)) (turn-IsIdle s t idle) in
    (r, i, omega (arith, same, here), λ u ne. others u ne ∙ turn-others s t u ne)

-- The first `n` threads have finished, and the others have not begun.
finish :
    (n : ℕ)
    → n ≤ threads
    → (s : State) × Reach s
      × IsIdle s
      × ((u : ℕ) → u < n → s.sections u ≡ 20)
      × ((u : ℕ) → n ≤ u → s.sections u ≡ 0)
unfolding start IsIdle
finish zero le = (start, started, (refl, λ u. refl), λ u lt. absurd (omega arith), λ u low. refl)
finish (suc n) le =
    let (s, reach, idle, before, behind) = finish n (omega arith) in
    let none_yet : s.sections n ≡ 0 = behind n (omega arith) in
    let (r, i, own, others) =
      turns-Turned n 20 s (omega arith) (omega (arith, none_yet)) reach idle in
    (
      turns n 20 s,
      r,
      i,
      λ u lt. elim (Bool-cases (u == n)) [
        | inl last ↦ let here = ==→eq u n last in rw here (omega (arith, own, none_yet))
        | inr other ↦ others u (λ e. ground (arith, e)) ∙ before u (ground arith)
      ],
      λ u low. others u (λ e. omega (arith, e)) ∙ behind u (omega arith),
    )

-- There is an order of steps in which all threads finish.
pub workers_finish : (s : State) × Reach s × IsFinished s
unfolding IsIdle
workers_finish =
    let (s, reach, idle, done, _) = finish threads (omega arith) in
    (s, reach, λ t lt. (idle.1 t, done t lt))
