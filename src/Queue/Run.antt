-- ===== src/Queue/Run.antt =====
-- The test program of the queue: what it takes out, in order.
use mathlib.Core.List.{append_assoc, append-nil}
use computersystems_monorepo.Prelude.{
  ℕ, suc, ◌<◌, ◌≡◌, refl, ap, sym, subst, List, [], ◌∷◌, ◌++◌, length,
}
use computersystems_monorepo.Queue.{
  Queue, State, ok, make_queue, enqueue_all, dequeue_all, run_queue,
}
use computersystems_monorepo.Queue.Fifo.{IsQueue, enqueue-IsQueue, enqueue-first}
use computersystems_monorepo.Queue.Out.{dequeue_process-IsQueue, drained-enqueue}

enqueue_all-IsQueue :
    (elements : List ℕ) (x : ℕ) (xs : List ℕ) (s : State)
    → IsQueue s x xs
    → (s' : State) × (enqueue_all elements s ≡ ok s') × IsQueue s' x (xs ++ elements)
unfolding enqueue_all
enqueue_all-IsQueue [] x xs s h = (s, refl, subst (IsQueue s x) (sym (append-nil xs)) h)
enqueue_all-IsQueue (element ∷ rest) x xs s h =
    let (s₁, e, h₁) = enqueue-IsQueue element x xs s h in
    let (s₂, f, h₂) = enqueue_all-IsQueue rest x (xs ++ element ∷ []) s₁ h₁ in
    (s₂, rw (e, enqueue_all) f, subst (IsQueue s₂ x) (append_assoc xs (element ∷ []) rest) h₂)

dequeue_all-order :
    (x : ℕ) (xs : List ℕ) (s : State)
    → IsQueue s x xs
    → dequeue_all (suc (length xs)) s ≡ ok (x ∷ xs)
unfolding dequeue_all
dequeue_all-order x [] s h = let (s', e, _, _) = drained-enqueue x 0 s h in rw (e, dequeue_all) refl
dequeue_all-order x (y ∷ ys) s h =
    let (s', e, h') = dequeue_process-IsQueue x y ys s h in
    rw (e, dequeue_all, dequeue_all-order y ys s' h') refl

-- From a new queue the program takes the processes out in the order in which it put them in.
pub run_queue-order :
    (elements : List ℕ) (s : State)
    → s.queue ≡ make_queue
    → 0 < s.fresh
    → run_queue elements s ≡ ok elements
unfolding run_queue enqueue_all dequeue_all make_queue
run_queue-order [] s new pos = refl
run_queue-order (x ∷ xs) s new pos =
    let (s₁, e, h₁) = enqueue-first x s (ap (λ (q : Queue). q.tail) new) pos in
    let (s₂, f, h₂) = enqueue_all-IsQueue xs x [] s₁ h₁ in
    rw (e, run_queue, enqueue_all, f) (dequeue_all-order x xs s₂ h₂)
