-- ===== src/HeapThreads/Ends.antt =====
-- The end of the start of PracticumV2/main.c.
use computersystems_monorepo.Prelude.{
  ℕ, ◌≤◌, ◌<◌, ◌≡◌, ◌≢◌, ◌⊎◌, ◌∙◌, sym, ap, subst, refl, arith, false, ltb, ltb→lt, inl, inr,
  Bool-cases,
}
use computersystems_monorepo.SharedData.{num_threads}
use computersystems_monorepo.VmHeap.{null, Os, Heap, exit}
use computersystems_monorepo.VmHeap.Disk.{Files}
use computersystems_monorepo.VmHeap.Keeps.{IsUser}
use computersystems_monorepo.VmHeap.Reached.{Allows-cases}
use computersystems_monorepo.HeapThreads.{
  Thread, unborn, running, exited, First, Second, next_first, next_second, Main, creates, joins,
  creates_second, joins_second, simulates, World, Step, create, created, join, joined,
  create_second, created_second, runs_first, runs_second, Run,
}
use computersystems_monorepo.HeapThreads.Calls.{
  IsBorn, IsEarly, FirstGoes, SecondGoes, next_first-goes, next_second-goes,
}
use computersystems_monorepo.HeapThreads.Kept.{first_born, second_born, IsWaiting, Kept}
use computersystems_monorepo.HeapThreads.Runs.{run-Kept}

-- The next call of some thread ends the program, with `exit` or a write through NULL.
abbrev pub EndsNext : Os → Files → ℕ → World → Type 0
EndsNext os files fuel w =
    (t : ℕ) × (t < num_threads)
    × (((place : First) × (w.first t ≡ running place)
          × (next_first os fuel place w.shared.heap ≡ exit))
        ⊎ ((place : Second) × (w.second t ≡ running place)
            × (next_second os files fuel t place w.shared ≡ exit)))

not-below : (i : ℕ) → ltb i num_threads ≡ false → i ≤ num_threads → i ≡ num_threads
not-below i e le = ground arith

module _ (os : Os) (files : Files) (user : IsUser os) (fuel : ℕ) (enough : 78 ≤ fuel) (n : ℕ)
    (w : World) (kept : Kept n w) where
  abbrev Goes : Type 0
  Goes = ((w' : World) × Step os files fuel w w') ⊎ EndsNext os files fuel w

  first-Goes : (i : ℕ) → i < num_threads → (place : First) → w.first i ≡ running place → Goes
  first-Goes i lt place at =
      elim (Allows-cases (FirstGoes n place) (next_first os fuel place w.shared.heap) (
        next_first-goes os files user fuel n (omega (arith, enough, kept.budget)) place
          w.shared.heap kept.laid)) [
            | inl ends ↦ inr (i, lt, inl (place, at, ends))
            | inr ((t, thread), e, after) ↦ inl (_, runs_first i place t thread lt at e)
          ]

  second-Goes : (i : ℕ) → i < num_threads → (place : Second) → w.second i ≡ running place → Goes
  second-Goes i lt place at =
      elim (Allows-cases (SecondGoes n place) (next_second os files fuel i place w.shared) (
        next_second-goes os files user fuel n (omega (arith, enough, kept.budget)) i place w.shared
          (subst IsEarly at (kept.early i)) kept.laid)) [
            | inl ends ↦ inr (i, lt, inr (place, at, ends))
            | inr ((g, thread), e, after) ↦ inl (_, runs_second i place g thread lt at e)
          ]

  join-Goes :
      (i : ℕ)
      → i < num_threads
      → w.main ≡ joins i
      → (thread : Thread First) → w.first i ≡ thread
      → Goes
  join-Goes i lt at unborn e =
      absurd (subst IsBorn e (kept.first i (subst (λ m. i < first_born m) (sym at) lt)))
  join-Goes i lt at (running place) e = first-Goes i lt place e
  join-Goes i lt at exited e = inl (_, join i at lt e)

  join_second-Goes : w.main ≡ joins_second 0 → (thread : Thread Second) → w.second 0 ≡ thread → Goes
  join_second-Goes at unborn e =
      absurd
        (subst IsBorn e (kept.second 0 (subst (λ m. 0 < second_born m) (sym at) (omega arith))))
  join_second-Goes at (running place) e = second-Goes 0 (omega arith) place e
  join_second-Goes at exited e = absurd (subst IsEarly e (kept.early 0))

  main-Goes : (m : Main) → w.main ≡ m → IsWaiting m → Goes
  main-Goes (creates i) at bound = elim (Bool-cases (ltb i num_threads)) [
    | inl below ↦ inl (_, create i at (ltb→lt i num_threads below))
    | inr all ↦ inl (_, created (at ∙ ap creates (not-below i all bound)))
  ]
  main-Goes (joins i) at bound = elim (Bool-cases (ltb i num_threads)) [
    | inl below ↦ join-Goes i (ltb→lt i num_threads below) at (w.first i) refl
    | inr all ↦ inl (_, joined (at ∙ ap joins (not-below i all bound)))
  ]
  main-Goes (creates_second i) at bound = elim (Bool-cases (ltb i num_threads)) [
    | inl below ↦ inl (_, create_second i at (ltb→lt i num_threads below))
    | inr all ↦ inl (_, created_second (at ∙ ap creates_second (not-below i all bound)))
  ]
  main-Goes (joins_second i) at bound =
      join_second-Goes (at ∙ ap joins_second bound) (w.second 0) refl
  main-Goes simulates at bound = absurd bound

  some_step : Goes
  some_step = main-Goes w.main refl kept.waiting

module _ (os : Os) (files : Files) (user : IsUser os) (fuel : ℕ) (enough : 78 ≤ fuel) (start : Heap)
    (empty : start.head ≡ null) (n : ℕ) (w : World) (run : Run os files fuel start n w) where
  -- From a heap that is not set up, in every order of the threads' calls, a run takes at most 76 steps;
  -- main never gets to the simulation, and no thread of thread_func2 to its end; and where a run has no
  -- further step, the next call of a thread ends the program, where mmap gives addresses of the lower
  -- half and not NULL, and the fuel of thread_safe_malloc is at least 78.
  pub start_ends :
      (n ≤ 76)
      × (w.main ≢ simulates)
      × ((t : ℕ) → w.second t ≢ exited)
      × (((w' : World) × Step os files fuel w w') ⊎ EndsNext os files fuel w)
  start_ends =
      let kept = run-Kept os files user fuel enough start empty n w run in
      (
        omega (arith, kept.budget),
        λ e. subst IsWaiting e kept.waiting,
        λ t e. subst IsEarly e (kept.early t),
        some_step os files user fuel enough n w kept,
      )
