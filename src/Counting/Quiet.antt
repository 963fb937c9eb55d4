-- ===== src/Counting/Quiet.antt =====
-- A group that starts with the counter at 30, as the last one of main does, which is given the name of
-- a file in place of a file.
use mathlib.Core.Bool.{false≢true}
use computersystems_monorepo.Prelude.{
  ℕ, ◌≤◌, ◌≡◌, ◌≢◌, ◌∙◌, sym, ap, refl, arith, ◌==◌, Bool, true, false, Bool-cases, inl, inr, none,
  update, List,
}
use computersystems_monorepo.Posix.{Bytes}
use computersystems_monorepo.Counting.{
  count_to, Phase, waiting, testing, raised, told, ended, State, Step, locks, raises, tells,
  reports, unlocks, Run, stops, goes, create,
}

-- A thread that is in a round of its loop uses the file.
abbrev is_quiet : Phase → Bool
is_quiet waiting = true
is_quiet testing = true
is_quiet raised = false
is_quiet told = false
is_quiet ended = true

abbrev IsQuiet : List Bytes → State → Type 0
IsQuiet out s = (count_to ≤ s.i) × (s.out ≡ out) × ((u : ℕ) → is_quiet (s.phase u) ≡ true)

update-quiet :
    (phase : ℕ → Phase) (t : ℕ) (p : Phase)
    → is_quiet p ≡ true
    → ((u : ℕ) → is_quiet (phase u) ≡ true)
    → (u : ℕ) → is_quiet (update phase t p u) ≡ true
update-quiet phase t p quiet before u = elim (Bool-cases (t == u)) [
  | inl same ↦ rw same quiet
  | inr other ↦ rw other (before u)
]

module _ (out : List Bytes) where
  loud : (s : State) (t : ℕ) (p : Phase) → IsQuiet out s → s.phase t ≡ p → is_quiet p ≢ false
  loud s t p (enough, kept, quiet) at noisy =
      false≢true (sym noisy ∙ ap is_quiet (sym at) ∙ quiet t)

  Step-IsQuiet : (s s' : State) → Step s s' → IsQuiet out s → IsQuiet out s'
  Step-IsQuiet s s' (locks t lt at free) (enough, kept, quiet) =
      (enough, kept, update-quiet s.phase t testing refl quiet)
  Step-IsQuiet s s' (raises t lt at more) (enough, kept, quiet) =
      absurd (omega (arith, enough, more))
  Step-IsQuiet s s' (tells t lt at) h = absurd (loud s t raised h at refl)
  Step-IsQuiet s s' (reports t lt at) h = absurd (loud s t told h at refl)
  Step-IsQuiet s s' (unlocks t lt at done) (enough, kept, quiet) =
      (enough, kept, update-quiet s.phase t ended refl quiet)

  Run-IsQuiet : (i n : ℕ) (s : State) → count_to ≤ i → Run (create i none out) n s → IsQuiet out s
  Run-IsQuiet i n s enough stops = (enough, refl, λ u. refl)
  Run-IsQuiet i n s enough (goes m s' _ run step) =
      Step-IsQuiet s' s step (Run-IsQuiet i m s' enough run)

  -- Where the counter is at 30 or more, no thread of a group gets to a use of its file.
  pub quiet_group :
      (i n : ℕ) (s : State)
      → count_to ≤ i
      → Run (create i none out) n s
      → (s.out ≡ out) × ((t : ℕ) → (s.phase t ≢ raised) × (s.phase t ≢ told))
  quiet_group i n s enough run =
      let h = Run-IsQuiet i n s enough run in
      let (more, kept, quiet) = h in
      (kept, λ t. (λ at. loud s t raised h at refl, λ at. loud s t told h at refl))
