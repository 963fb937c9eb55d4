-- ===== src/Counting/Rounds.antt =====
-- The loop of main over the results files, what is in them behind it, and the group that main starts
-- with the name of a file in place of a file.
use computersystems_monorepo.Prelude.{
  ℕ, zero, suc, ◌+◌, ◌-◌, ◌≤◌, ◌<◌, [], ◌≡◌, ◌∙◌, ap, sym, subst, refl, arith, ◌==◌, Bool-cases,
  inl, inr, Option, none, update, ==→eq, List, ◌++◌,
}
use computersystems_monorepo.Posix.{Bytes}
use computersystems_monorepo.Counting.{count_to, State, Run, stops, create, IsJoined}
use computersystems_monorepo.Counting.Poem.{sentences}
use computersystems_monorepo.Counting.Steps.{counts}
use computersystems_monorepo.Counting.Group.{group_lem}
use computersystems_monorepo.Counting.Ends.{group_ends}

abbrev pub Files : Type 0
Files = ℕ → List Bytes

-- Some rounds of the loop on `k`, from files that hold `held`: the number of rounds, the counter, the
-- mutex and the files behind them. A file is opened to append.
pub data Rounds (held : Files) : ℕ → ℕ → Option ℕ → Files → Type 0 where
  begins : Rounds held 0 0 none held
  next :
      (k i : ℕ) (mutex : Option ℕ) (files : Files) (n : ℕ) (s : State)
      → Rounds held k i mutex files
      → Run (create i mutex (files k ++ sentences)) n s
      → IsJoined s
      → Rounds held (suc k) s.i s.mutex (update files k s.out)

-- The counter before round `k`, and the texts of counts that round `k` adds to its file.
abbrev pub counter : ℕ → ℕ
counter zero = 0
counter (suc k) = count_to

abbrev pub counts_in : ℕ → List Bytes
counts_in zero = counts 0 count_to
counts_in (suc k) = []

counter-rises : (k : ℕ) → counter k + (count_to - counter k) ≡ count_to
counter-rises zero = omega arith
counter-rises (suc k) = omega arith

counts-counter : (k : ℕ) → counts (counter k) (count_to - counter k) ≡ counts_in k
unfolding counts
counts-counter zero = refl
counts-counter (suc k) = refl

-- One round, from where the rounds before it lead to.
round_lem :
    (k i : ℕ) (mutex : Option ℕ) (out : List Bytes) (n : ℕ) (s : State)
    → i ≡ counter k
    → mutex ≡ none
    → Run (create i mutex out) n s
    → IsJoined s
    → (s.i ≡ count_to) × (s.mutex ≡ none) × (s.out ≡ out ++ counts_in k)
round_lem k i mutex out n s at free run joined =
    let run' : Run (create (counter k) none out) n s =
      subst (λ m. Run (create (counter k) m out) n s) free
        (subst (λ i. Run (create i mutex out) n s) at run) in
    let (top, free', written) = group_lem (counter k) out n s run' joined in
    (top ∙ counter-rises k, free', written ∙ ap (λ c. out ++ c) (counts-counter k))

-- Behind some rounds of the loop over the results files, in every order of the threads' steps, the
-- counter is where the rounds leave it, the mutex is free, the first file got the sentences and the
-- texts of all counts from 1 to 30, each later one of these rounds got the sentences only, and the
-- files of no round are as before.
pub rounds_lem :
    (held : Files) (k i : ℕ) (mutex : Option ℕ) (files : Files)
    → Rounds held k i mutex files
    → (i ≡ counter k)
      × (mutex ≡ none)
      × ((f : ℕ) → f < k → files f ≡ held f ++ sentences ++ counts_in f)
      × ((f : ℕ) → k ≤ f → files f ≡ held f)
rounds_lem held k i mutex files begins = (refl, refl, λ f lt. absurd (omega arith), λ f le. refl)
rounds_lem held k' i' mutex' files' (next k i mutex files n s before run joined) =
    let (at, free, past, ahead) = rounds_lem held k i mutex files before in
    let (top, free', written) = round_lem k i mutex (files k ++ sentences) n s at free run joined in
    (
      top,
      free',
      λ f lt. elim (Bool-cases (k == f)) [
        | inl same ↦
            let here = ==→eq k f same in
            rw same (
              written
              ∙ ap (λ o. o ++ sentences ++ counts_in k) (ahead k (omega arith))
              ∙ ap (λ f. held f ++ sentences ++ counts_in f) here)
        | inr other ↦ rw other (past f (ground arith))
      ],
      λ f le. elim (Bool-cases (k == f)) [
        | inl same ↦ absurd (ground arith)
        | inr other ↦ rw other (ahead f (omega arith))
      ],
    )

-- The rounds can be run to their end.
pub rounds_exist :
    (held : Files) (k : ℕ)
    → (i : ℕ) × (mutex : Option ℕ) × (files : Files) × Rounds held k i mutex files
rounds_exist held zero = (0, none, held, begins)
rounds_exist held (suc k) =
    let (i, mutex, files, rounds) = rounds_exist held k in
    let (at, free, past, ahead) = rounds_lem held k i mutex files rounds in
    let out = files k ++ sentences in
    let ((n, s, run, joined), more) = group_ends i out 0 (create i none out) stops in
    let run' : Run (create i mutex out) n s =
      subst (λ m. Run (create i m out) n s) (sym free) run in
    (s.i, s.mutex, update files k s.out, next k i mutex files n s rounds run' joined)
