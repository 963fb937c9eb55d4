-- ===== src/HeapThreads/Runs.antt =====
-- Every step of the start of PracticumV2/main.c keeps what `Kept` says.
use computersystems_monorepo.Prelude.{
  ℕ, suc, ◌+◌, ◌-◌, ◌*◌, ◌≤◌, ◌<◌, ◌≡◌, ap, subst, refl, arith, update, inl,
}
use computersystems_monorepo.SharedData.{num_threads}
use computersystems_monorepo.VmHeap.{null, Os, Heap, returns}
use computersystems_monorepo.VmHeap.Disk.{Files}
use computersystems_monorepo.VmHeap.Keeps.{IsUser, same-IsLaid, more-IsLaid}
use computersystems_monorepo.VmHeap.Reached.{allowed}
use computersystems_monorepo.HeapThreads.{
  allocates, loads_data, reset_tables, Thread, running, First, Shared, Second, next_first,
  next_second, Main, creates, joins, creates_second, joins_second, World, Step, create, created,
  join, joined, create_second, created_second, join_second, joined_second, runs_first, runs_second,
  Run, begins, goes_on,
}
use computersystems_monorepo.HeapThreads.Calls.{
  first_left, second_left, IsBorn, IsEarly, FirstGoes, SecondGoes, next_first-goes,
  next_second-goes,
}
use computersystems_monorepo.HeapThreads.Kept.{
  main_left, first_born, second_born, IsWaiting, Kept, total-update, update-all,
}

module _ (os : Os) (files : Files) (user : IsUser os) (fuel : ℕ) (enough : 78 ≤ fuel) where
  keeps-first :
      (n i : ℕ) (w : World) (place : First) (t : Heap) (thread : Thread First)
      → Kept n w
      → i < num_threads
      → w.first i ≡ running place
      → next_first os fuel place w.shared.heap ≡ returns (t, thread)
      → Kept
          (suc n)
          (record w { shared = record w.shared { heap = t }; first = update w.first i thread })
  keeps-first n i w place t thread kept lt at e =
      let (laid, less, born) =
        allowed (FirstGoes n place) (next_first os fuel place w.shared.heap)
          (next_first-goes os files user fuel n (omega (arith, enough, kept.budget)) place
            w.shared.heap kept.laid)
          e in
      let moved = total-update first_left w.first thread i lt in
      let here : first_left (w.first i) ≡ first_left (running place) = ap first_left at in
      record {
        laid = laid;
        early = kept.early;
        waiting = kept.waiting;
        first = λ k below. update-all IsBorn w.first i thread k born (λ other. kept.first k below);
        second = kept.second;
        budget = omega (arith, kept.budget, moved, here, less);
      }

  keeps-second :
      (n i : ℕ) (w : World) (place : Second) (g : Shared) (thread : Thread Second)
      → Kept n w
      → i < num_threads
      → w.second i ≡ running place
      → next_second os files fuel i place w.shared ≡ returns (g, thread)
      → Kept (suc n) (record w { shared = g; second = update w.second i thread })
  keeps-second n i w place g thread kept lt at e =
      let (laid, less, born, early) =
        allowed (SecondGoes n place) (next_second os files fuel i place w.shared)
          (next_second-goes os files user fuel n (omega (arith, enough, kept.budget)) i place
            w.shared (subst IsEarly at (kept.early i)) kept.laid)
          e in
      let moved = total-update second_left w.second thread i lt in
      let here : second_left (w.second i) ≡ second_left (running place) = ap second_left at in
      record {
        laid = laid;
        early = λ k. update-all IsEarly w.second i thread k early (λ other. kept.early k);
        waiting = kept.waiting;
        first = kept.first;
        second =
            λ k below. update-all IsBorn w.second i thread k born (λ other. kept.second k below);
        budget = omega (arith, kept.budget, moved, here, less);
      }

  keeps-create :
      (n i : ℕ) (w : World)
      → Kept n w
      → w.main ≡ creates i
      → i < num_threads
      → Kept
          (suc n)
          (record w { main = creates (suc i); first = update w.first i (running allocates) })
  keeps-create n i w kept at lt =
      let born : first_born w.main ≡ i = ap first_born at in
      let mine : main_left w.main ≡ 3 * (num_threads - i) + 64 = ap main_left at in
      let moved = total-update first_left w.first (running allocates) i lt in
      record {
        laid = more-IsLaid (suc (suc n)) w.shared.heap kept.laid;
        early = kept.early;
        waiting = omega (arith, lt);
        first = λ k below.
            update-all IsBorn w.first i (running allocates) k tt
              (λ other. kept.first k (omega (arith, below, born, other)));
        second = λ k below. absurd (omega (arith, below));
        budget = omega (arith, kept.budget, moved, mine, lt);
      }

  keeps-create_second :
      (n i : ℕ) (w : World)
      → Kept n w
      → w.main ≡ creates_second i
      → i < num_threads
      → Kept (suc n) (record w {
        main = creates_second (suc i);
        second = update w.second i (running loads_data);
      })
  keeps-create_second n i w kept at lt =
      let born : second_born w.main ≡ i = ap second_born at in
      let all : first_born w.main ≡ num_threads = ap first_born at in
      let mine : main_left w.main ≡ 13 * (num_threads - i) + 6 = ap main_left at in
      let moved = total-update second_left w.second (running loads_data) i lt in
      record {
        laid = more-IsLaid (suc (suc n)) w.shared.heap kept.laid;
        early = λ k.
            update-all IsEarly w.second i (running loads_data) k (omega arith)
              (λ other. kept.early k);
        waiting = omega (arith, lt);
        first = λ k below. kept.first k (omega (arith, below, all));
        second = λ k below.
            update-all IsBorn w.second i (running loads_data) k tt
              (λ other. kept.second k (omega (arith, below, born, other)));
        budget = omega (arith, kept.budget, moved, mine, lt);
      }

  -- The other steps of `main`: the threads stay as they are, and so does the list of blocks.
  keeps-main :
      (n : ℕ) (w : World) (s : Heap) (m : Main)
      → Kept n w
      → s.head ≡ w.shared.heap.head
      → s.blocks ≡ w.shared.heap.blocks
      → IsWaiting m
      → first_born m ≤ first_born w.main
      → second_born m ≤ second_born w.main
      → main_left m < main_left w.main
      → Kept (suc n) (record w { main = m; shared = record w.shared { heap = s } })
  keeps-main n w s m kept head blocks waiting first second less = record {
    laid =
        same-IsLaid (suc (suc (suc n))) w.shared.heap s (head, blocks)
          (more-IsLaid (suc (suc n)) w.shared.heap kept.laid);
    early = kept.early;
    waiting = waiting;
    first = λ k below. kept.first k (omega (arith, below, first));
    second = λ k below. kept.second k (omega (arith, below, second));
    budget = omega (arith, kept.budget, less);
  }

  keeps-step : (n : ℕ) (w w' : World) → Kept n w → Step os files fuel w w' → Kept (suc n) w'
  keeps-step n w w' kept (create i at lt) = keeps-create n i w kept at lt
  keeps-step n w w' kept (created at) =
      keeps-main n w w.shared.heap (joins 0) kept refl refl (omega arith) (rw at (omega arith))
        (omega arith) (rw at (omega arith))
  keeps-step n w w' kept (join i at lt done) =
      keeps-main n w w.shared.heap (joins (suc i)) kept refl refl (omega (arith, lt))
        (rw at (omega arith)) (omega arith) (rw at (omega (arith, lt)))
  keeps-step n w w' kept (joined at) =
      keeps-main n w (reset_tables w.shared.heap) (creates_second 0) kept refl refl (omega arith)
        (rw at (omega arith)) (omega arith) (rw at (omega arith))
  keeps-step n w w' kept (create_second i at lt) = keeps-create_second n i w kept at lt
  keeps-step n w w' kept (created_second at) =
      keeps-main n w w.shared.heap (joins_second 0) kept refl refl refl (rw at (omega arith))
        (rw at (omega arith)) (rw at (omega arith))
  keeps-step n w w' kept (join_second i at lt done) = absurd (subst IsEarly done (kept.early i))
  keeps-step n w w' kept (joined_second at) =
      absurd (omega (arith, subst IsWaiting at kept.waiting))
  keeps-step n w w' kept (runs_first i place t thread lt at e) =
      keeps-first n i w place t thread kept lt at e
  keeps-step n w w' kept (runs_second i place g thread lt at e) =
      keeps-second n i w place g thread kept lt at e

  pub run-Kept :
      (start : Heap)
      → start.head ≡ null
      → (n : ℕ) (w : World) → Run os files fuel start n w
      → Kept n w
  run-Kept start empty n w begins = record {
    laid = inl empty;
    early = λ t. tt;
    waiting = omega arith;
    first = λ t below. absurd (omega (arith, below));
    second = λ t below. absurd (omega (arith, below));
    budget = omega arith;
  }
  run-Kept start empty _ w (goes_on {n = n} {w = v} run step) =
      keeps-step n v w (run-Kept start empty n v run) step
