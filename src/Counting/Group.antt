-- ===== src/Counting/Group.antt =====
-- What one group of threads writes, in every order of its steps.
use mathlib.Core.List.{append-nil}
use mathlib.Core.Bool.{false≢true}
use mathlib.Core.Option.{none-ne-some}
use computersystems_monorepo.Prelude.{
  ℕ, ◌+◌, ◌-◌, ◌≡◌, ◌∙◌, sym, ap, arith, inl, inr, none, Option-cases, List, ◌++◌,
}
use computersystems_monorepo.Posix.{Bytes}
use computersystems_monorepo.Counting.{count_to, State, Run, stops, goes, create, IsJoined}
use computersystems_monorepo.Counting.Steps.{
  counts, owed_by, not_ended, IsCounting, Step-IsCounting,
}

module _ (i₀ : ℕ) (out₀ : List Bytes) where
  create-IsCounting : IsCounting i₀ out₀ (create i₀ none out₀)
  unfolding counts
  create-IsCounting = record {
    holds = λ t inside. absurd (false≢true inside);
    held = λ t by_t. absurd (none-ne-some t by_t);
    low = omega arith;
    high = omega arith;
    full = λ t done. cc;
    writes = ap (λ n. out₀ ++ counts i₀ n) {x = 0} {y = i₀ - i₀} (omega arith);
  }

  pub Run-IsCounting : (n : ℕ) (s : State) → Run (create i₀ none out₀) n s → IsCounting i₀ out₀ s
  Run-IsCounting n s stops = create-IsCounting
  Run-IsCounting n s (goes m s' _ run step) =
      Step-IsCounting i₀ out₀ s' s step (Run-IsCounting m s' run)

  -- In every order of the steps, when both threads have ended, `i` is 30, or what it was where that is
  -- more, and the file got the texts of the counts in between, with the mutex free again.
  pub group_lem :
      (n : ℕ) (s : State)
      → Run (create i₀ none out₀) n s
      → IsJoined s
      → (s.i ≡ i₀ + (count_to - i₀))
        × (s.mutex ≡ none)
        × (s.out ≡ out₀ ++ counts i₀ (count_to - i₀))
  group_lem n s run joined =
      let h = Run-IsCounting n s run in
      let top : s.i ≡ i₀ + (count_to - i₀) =
        omega (arith, h.low, h.high, h.full 0 (joined 0 (omega arith))) in
      let free : s.mutex ≡ none = elim (Option-cases s.mutex) [
        | inl free ↦ free
        | inr (t, by_t) ↦
            let (lt, inside) = h.held t by_t in absurd (not_ended _ inside (joined t lt))
      ] in
      (
        top,
        free,
        sym (append-nil s.out)
            ∙ ap (λ m. s.out ++ owed_by m s) (sym free)
            ∙ h.writes
            ∙ ap (λ n. out₀ ++ counts i₀ n) {y = count_to - i₀} (omega (arith, top)),
      )
