-- ===== src/Workers/Exclusion.antt =====
-- The mutex keeps two threads from being in their sections at one time.
use mathlib.Core.Option.{some-injective, none-ne-some}
use computersystems_monorepo.Prelude.{
  ℕ, ◌≡◌, ◌≢◌, ◌∙◌, sym, ap, refl, arith, ◌==◌, false, Bool-cases, inl, inr, none, some, update,
  ==→eq,
}
use computersystems_monorepo.Workers.{
  Phase, outside, locked, written, advanced, State, Step, locks, writes, advances, unlocks, start,
  Reach, started, stepped,
}

-- A thread in its section holds the mutex.
abbrev pub Holds : State → Type 0
Holds s = (t : ℕ) → s.phase t ≢ outside → s.mutex ≡ some t

module _ (s : State) (t : ℕ) (h : Holds s) (p : Phase) where
  others : (u : ℕ) → (t == u) ≡ false → update s.phase t p u ≢ outside → s.mutex ≡ some u
  others u other ne = h u (λ e. ne (rw other e))

  -- A thread that moves inside of its section still holds the mutex.
  inside : s.phase t ≢ outside → (u : ℕ) → update s.phase t p u ≢ outside → s.mutex ≡ some u
  inside in_section u ne = elim (Bool-cases (t == u)) [
    | inl same ↦ h t in_section ∙ ap some (==→eq t u same)
    | inr other ↦ others u other ne
  ]

  locks-Holds : s.mutex ≡ none → (u : ℕ) → update s.phase t p u ≢ outside → some t ≡ some u
  locks-Holds free u ne = elim (Bool-cases (t == u)) [
    | inl same ↦ ap some (==→eq t u same)
    | inr other ↦ absurd (none-ne-some u (sym free ∙ others u other ne))
  ]

unlocks-Holds :
    (s : State) (t : ℕ)
    → Holds s
    → s.phase t ≢ outside
    → (u : ℕ) → update s.phase t outside u ≢ outside
    → none ≡ some u
unlocks-Holds s t h in_section u ne = elim (Bool-cases (t == u)) [
  | inl same ↦ absurd (ne (rw same refl))
  | inr other ↦
      let same = some-injective t u (sym (h t in_section) ∙ others s t h outside u other ne) in
      absurd (ground arith)
]

not_outside : (p q : Phase) → p ≡ q → q ≢ outside → p ≢ outside
not_outside p q e ne f = ne (sym e ∙ f)

Step-Holds : (s s' : State) → Step s s' → Holds s → Holds s'
Step-Holds s s' (locks t lt more e free) h u ne = locks-Holds s t h locked free u ne
Step-Holds s s' (writes t lt e) h u ne =
    inside s t h written (not_outside _ locked e (λ f. cc)) u ne
Step-Holds s s' (advances t lt e) h u ne =
    inside s t h advanced (not_outside _ written e (λ f. cc)) u ne
Step-Holds s s' (unlocks t lt e) h u ne =
    unlocks-Holds s t h (not_outside _ advanced e (λ f. cc)) u ne

pub Reach-Holds : (s : State) → Reach s → Holds s
unfolding start
Reach-Holds s started = λ t ne. absurd (ne refl)
Reach-Holds s' (stepped s _ before step) = Step-Holds s s' step (Reach-Holds s before)

-- In every state that the threads can reach, two threads in their sections are one thread.
pub mutual_exclusion :
    (s : State) (t u : ℕ) → Reach s → s.phase t ≢ outside → s.phase u ≢ outside → t ≡ u
mutual_exclusion s t u reach in_t in_u =
    some-injective t u (sym (Reach-Holds s reach t in_t) ∙ Reach-Holds s reach u in_u)
