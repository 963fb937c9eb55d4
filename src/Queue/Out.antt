-- ===== src/Queue/Out.antt =====
-- What dequeueProcess does to a queue.
use computersystems_monorepo.Prelude.{
  ℕ, ◌≤◌, ◌≡◌, refl, ◌∙◌, arith, Option, none, some, update, List, [], ◌∷◌, eq→==, ne→==,
}
use computersystems_monorepo.Queue.{null, Node, State, ok, fault, enqueue, dequeue_process}
use computersystems_monorepo.Queue.Fifo.{Links, IsQueue, enqueue-dangling}

Links-above :
    (cells cells' : ℕ → Option Node) (fresh a x : ℕ) (xs : List ℕ) (last : ℕ)
    → Links cells fresh a x xs last
    → ((b : ℕ) → a ≤ b → cells' b ≡ cells b)
    → Links cells' fresh a x xs last
Links-above cells cells' fresh a x [] last (n, at, p, next, end, pos, lt) same =
    (n, same a (omega arith) ∙ at, p, next, end, pos, lt)
Links-above cells cells' fresh a x (y ∷ ys) last (n, at, p, pos, up, rest) same = (
  n,
  same a (omega arith) ∙ at,
  p,
  pos,
  up,
  Links-above cells cells' fresh n.next y ys last rest (λ b le. same b (omega (arith, up))),
)

abbrev popped : State → Node → State
popped s n = record s {
  queue = record s.queue { head = n.next; data_ = n.next };
  cells = update s.cells s.queue.head none;
}

dequeue_process-popped :
    (s : State) (n : Node) (x : ℕ)
    → s.cells s.queue.head ≡ some n
    → n.p ≡ x
    → dequeue_process s ≡ ok (popped s n, x)
unfolding dequeue_process
dequeue_process-popped s n x at p = rw (at, p) refl

-- `dequeue_process` returns the process that has been in the queue for the longest time, whatever the
-- priorities, and leaves the others in their order.
pub dequeue_process-IsQueue :
    (x y : ℕ) (ys : List ℕ) (s : State)
    → IsQueue s x (y ∷ ys)
    → (s' : State) × (dequeue_process s ≡ ok (s', x)) × IsQueue s' y ys
dequeue_process-IsQueue x y ys s (data_, (n, at, p, pos, up, rest)) = (
  popped s n,
  dequeue_process-popped s n x at p,
  (
    refl,
    Links-above s.cells (update s.cells s.queue.head none) s.fresh n.next y ys s.queue.tail rest
        (λ b le. rw (ne→== s.queue.head b (λ e. omega (arith, up, e))) refl),
  ),
)

-- Taking the last process out returns it, but the tail still points to the freed node, and the next
-- `enqueue` writes there.
pub drained-enqueue :
    (x element : ℕ) (s : State)
    → IsQueue s x []
    → (s' : State) × (dequeue_process s ≡ ok (s', x))
      × (s'.queue.head ≡ null)
      × (enqueue element s' ≡ fault)
drained-enqueue x element s (data_, (n, at, p, next, same, pos, lt)) = (
  popped s n,
  dequeue_process-popped s n x at p,
  next,
  enqueue-dangling element (popped s n) (λ e. omega (arith, same, pos, e))
      (λ e. omega (arith, same, lt, e)) (rw (same, eq→== s.queue.tail s.queue.tail refl) refl),
)
