-- ===== src/Queue.antt =====
-- The queue of A3/queue.c. The heap holds a node at each allocated address; `malloc` gives an address
-- that was not used before, with whatever contents the memory has, and `free` takes the node away.
pub mod Fifo
pub mod Out
pub mod Reach
pub mod Run
pub mod Tests
use computersystems_monorepo.Prelude.{
  ℕ, zero, suc, length, List, [], ◌∷◌, ◌+◌, ◌-◌, Bool, true, false, ◌==◌, if◌then◌else◌, update,
  Option, none, some,
}

abbrev pub null : ℕ
null = 0

-- `node_t`. Pointers to processes and values are numbers.
pub record Node : Type 0 where
  pub next : ℕ
  pub prev : ℕ
  pub val : ℕ
  pub p : ℕ

-- `queue_t`.
pub record Queue : Type 0 where
  pub head : ℕ
  pub tail : ℕ
  pub size : ℕ
  pub data_ : ℕ

-- `junk` is what fresh memory holds, `fresh` the next address of `malloc`.
pub record State : Type 0 where
  pub queue : Queue
  pub cells : ℕ → Option Node
  pub fresh : ℕ
  pub junk : ℕ → Node

-- `fault` is an access through NULL or to a node that is not allocated.
pub data Result (A : Type 0) : Type 0 where
  ok : A → Result A
  fault : Result A

-- Read the node at `a` and go on.
abbrev pub at_node : {A : Type 0} → Option Node → (Node → Result A) → Result A
at_node none next = fault
at_node (some n) next = next n

unfoldable pub make_queue : Queue
make_queue = record { head = null; tail = null; size = 0; data_ = null }

abbrev pub isempty : Queue → Bool
isempty q = q.tail == null

abbrev pub put : ℕ → Node → (ℕ → Option Node) → ℕ → Option Node
put a n cells = update cells a (some n)

-- The new node: `p` and `next` are set, `prev` and `val` are what the memory held.
abbrev pub new_node : ℕ → Node → Node
new_node element junk = record junk { p = element; next = null }

unfoldable pub enqueue : (element : ℕ) → State → Result State
enqueue element s =
    let temp = s.fresh in
    let cells = put temp (new_node element (s.junk temp)) s.cells in
    let first = ok (record s {
      queue = record s.queue { head = temp; tail = temp; data_ = temp };
      cells = cells;
      fresh = temp + 1;
    }) in
    let behind = at_node (cells s.queue.tail) λ last. ok (record s {
      queue = record s.queue { tail = temp };
      cells = put s.queue.tail (record last { next = temp }) cells;
      fresh = temp + 1;
    }) in
    if isempty s.queue then first else behind

-- The removal in `dequeue`, from `res = queue->head->val` on.
unfoldable pub unlink : State → Result (State × ℕ)
unlink s =
    let q = s.queue in
    at_node (s.cells q.head) λ old. at_node (s.cells old.prev) λ before.
      let cells = put old.prev (record before { next = q.tail }) s.cells in
      at_node (cells q.tail) λ last.
        let cells' = put q.tail (record last { prev = old.prev }) cells in
        at_node (cells' q.head) λ old'. ok (
          record s { queue = record q { head = old'.next; size = q.size - 1 }; cells = cells' },
          old.val,
        )

unfoldable pub dequeue : State → Result (State × ℕ)
dequeue s =
    let q = s.queue in
    let s' = record s { queue = if q.head == q.tail then record q { tail = null } else q } in
    if q.size == 0 then ok (s', null) else unlink s'

unfoldable pub dequeue_process : State → Result (State × ℕ)
dequeue_process s = at_node (s.cells s.queue.head) λ temp. ok (
  record s {
    queue = record s.queue { head = temp.next; data_ = temp.next };
    cells = update s.cells s.queue.head none;
  },
  temp.p,
)

unfoldable pub qsize : Queue → ℕ
qsize q = if q.head == null then 0 else q.size

-- The two loops of `main` of A3/queuetest.c, with the processes as numbers.
unfoldable pub enqueue_all : List ℕ → State → Result State
enqueue_all [] s = ok s
enqueue_all (element ∷ rest) s = elim (enqueue element s) [
  | ok s' ↦ enqueue_all rest s'
  | fault ↦ fault
]

unfoldable pub dequeue_all : (n : ℕ) → State → Result (List ℕ)
dequeue_all zero s = ok []
dequeue_all (suc n) s = elim (dequeue_process s) [
  | ok (s', p) ↦ elim (dequeue_all n s') [ ok ps ↦ ok (p ∷ ps) | fault ↦ fault ]
  | fault ↦ fault
]

unfoldable pub run_queue : List ℕ → State → Result (List ℕ)
run_queue elements s = elim (enqueue_all elements s) [
  | ok s' ↦ dequeue_all (length elements) s'
  | fault ↦ fault
]
