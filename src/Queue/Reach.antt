-- ===== src/Queue/Reach.antt =====
-- The field `size` of a queue stays 0.
use computersystems_monorepo.Prelude.{
  ℕ, ◌≡◌, refl, ap, sym, ◌∙◌, ◌==◌, if◌then◌else◌, Bool-cases, inl, inr, Option, none, some,
  Option-cases,
}
use computersystems_monorepo.Queue.{
  null, Node, Queue, State, Result, ok, fault, at_node, make_queue, isempty, enqueue, dequeue,
  dequeue_process, qsize,
}

-- The states that a client can reach with the four operations, from a new queue.
pub data Reach : State → Type 0 where
  made : (s : State) → s.queue ≡ make_queue → Reach s
  enqueued : (element : ℕ) (s s' : State) → Reach s → enqueue element s ≡ ok s' → Reach s'
  dequeued : (s s' : State) (r : ℕ) → Reach s → dequeue s ≡ ok (s', r) → Reach s'
  processed : (s s' : State) (r : ℕ) → Reach s → dequeue_process s ≡ ok (s', r) → Reach s'

-- What a size can be read off, whatever the outcome.
abbrev size_of : Result State → ℕ → ℕ
size_of (ok s) d = s.queue.size
size_of fault d = d

abbrev size_of_pair : Result (State × ℕ) → ℕ → ℕ
size_of_pair (ok (s, r)) d = s.queue.size
size_of_pair fault d = d

behind-size :
    (o : Option Node) (s : State) (next : Node → State)
    → ((n : Node) → (next n).queue.size ≡ s.queue.size)
    → size_of (at_node o (λ n. ok (next n))) s.queue.size ≡ s.queue.size
behind-size none s next same = refl
behind-size (some n) s next same = same n

enqueue-size : (element : ℕ) (s : State) → size_of (enqueue element s) s.queue.size ≡ s.queue.size
unfolding enqueue
enqueue-size element s = elim (Bool-cases (isempty s.queue)) [
  | inl empty ↦ rw empty refl
  | inr filled ↦ rw filled (behind-size _ s _ (λ n. refl))
]

dequeue_process-size : (s : State) → size_of_pair (dequeue_process s) s.queue.size ≡ s.queue.size
unfolding dequeue_process
dequeue_process-size s = elim (Option-cases (s.cells s.queue.head)) [
  | inl gone ↦ rw gone refl
  | inr (n, here) ↦ rw here refl
]

dequeue-empty :
    (s : State)
    → s.queue.size ≡ 0
    → dequeue s
      ≡ ok (
        record s {
          queue = if s.queue.head == s.queue.tail then record s.queue { tail = null } else s.queue;
        },
        null,
      )
unfolding dequeue
dequeue-empty s e = rw e refl

dequeue-size : (s : State) → s.queue.size ≡ 0 → size_of_pair (dequeue s) 0 ≡ 0
dequeue-size s e = rw (dequeue-empty s e) (elim (Bool-cases (s.queue.head == s.queue.tail)) [
  | inl one ↦ rw (one, e) refl
  | inr more ↦ rw (more, e) refl
])

Reach-size : (s : State) → Reach s → s.queue.size ≡ 0
unfolding make_queue
Reach-size s (made _ e) = ap (λ (q : Queue). q.size) e
Reach-size s' (enqueued element s _ h e) =
    sym (ap (λ r. size_of r s.queue.size) e) ∙ enqueue-size element s ∙ Reach-size s h
Reach-size s' (dequeued s _ r h e) =
    sym (ap (λ o. size_of_pair o 0) e) ∙ dequeue-size s (Reach-size s h)
Reach-size s' (processed s _ r h e) =
    sym (ap (λ o. size_of_pair o s.queue.size) e) ∙ dequeue_process-size s ∙ Reach-size s h

-- Whatever a client has done to a queue, its size reads as 0, and `dequeue` returns NULL and takes
-- nothing out of the memory.
pub dequeue-never :
    (s : State)
    → Reach s
    → (qsize s.queue ≡ 0) × (s' : State) × (dequeue s ≡ ok (s', null)) × (s'.cells ≡ s.cells)
unfolding qsize
dequeue-never s h =
    let size = Reach-size s h in
    (
      rw size (elim (Bool-cases (s.queue.head == null)) [
        | inl empty ↦ rw empty refl
        | inr filled ↦ rw filled refl
      ]),
      _,
      dequeue-empty s size,
      refl,
    )
