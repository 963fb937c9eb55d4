-- ===== src/Queue/Fifo.antt =====
-- What a queue is, and what enqueue does to it.
use computersystems_monorepo.Prelude.{
  ℕ, ◌+◌, ◌≤◌, ◌<◌, ◌≡◌, ◌≢◌, refl, ap, sym, ◌∙◌, arith, Option, none, some, List, [], ◌∷◌, ◌++◌,
  eq→==, ne→==,
}
use computersystems_monorepo.Queue.{null, Node, State, ok, fault, put, new_node, enqueue}

-- From `a` the nodes run through the processes `x` and then `xs`, at growing addresses below `fresh`,
-- to the node `last`.
abbrev pub Links : (ℕ → Option Node) → (fresh a : ℕ) → (x : ℕ) → List ℕ → (last : ℕ) → Type 0
Links cells fresh a x [] last =
    (n : Node) × (cells a ≡ some n)
    × (n.p ≡ x)
    × (n.next ≡ null)
    × (a ≡ last)
    × (0 < a)
    × (a < fresh)
Links cells fresh a x (y ∷ ys) last =
    (n : Node) × (cells a ≡ some n)
    × (n.p ≡ x)
    × (0 < a)
    × (a < n.next)
    × Links cells fresh n.next y ys last

-- A queue that holds `x` and then `xs`.
abbrev pub IsQueue : State → (x : ℕ) → List ℕ → Type 0
IsQueue s x xs =
    (s.queue.data_ ≡ s.queue.head) × Links s.cells s.fresh s.queue.head x xs s.queue.tail

Links-last :
    (cells : ℕ → Option Node) (fresh a x : ℕ) (xs : List ℕ) (last : ℕ)
    → Links cells fresh a x xs last
    → (0 < a) × (a ≤ last) × (last < fresh)
Links-last cells fresh a x [] last (n, at, p, next, same, pos, lt) =
    (pos, omega (arith, same), omega (arith, same, lt))
Links-last cells fresh a x (y ∷ ys) last (n, at, p, pos, up, rest) =
    let (_, le, lt) = Links-last cells fresh n.next y ys last rest in
    (pos, omega (arith, le, up), lt)

-- The heap after `enqueue` with `last` as the tail.
abbrev linked : (ℕ → Option Node) → (temp last : ℕ) → (n m : Node) → ℕ → Option Node
linked cells temp last n m = put last (record m { next = temp }) (put temp n cells)

module _ (cells : ℕ → Option Node) (temp element : ℕ) (junk : Node) where
  -- The last node gets the new one as its `next`.
  Links-append :
      (a x : ℕ) (xs : List ℕ) (last : ℕ)
      → Links cells temp a x xs last
      → (m : Node) × (cells last ≡ some m)
        × Links
            (linked cells temp last (new_node element junk) m)
            (temp + 1)
            a
            x
            (xs ++ element ∷ [])
            temp
  Links-append a x [] last (n, at, p, next, same, pos, lt) = (
    n,
    ap cells (sym same) ∙ at,
    (
      record n { next = temp },
      rw (same, eq→== last last refl) refl,
      p,
      pos,
      lt,
      (
        new_node element junk,
        rw (ne→== last temp (λ e. omega (arith, same, lt)), eq→== temp temp refl) refl,
        refl,
        refl,
        refl,
        omega (arith, lt),
        omega arith,
      ),
    ),
  )
  Links-append a x (y ∷ ys) last (n, at, p, pos, up, rest) =
      let (m, here, links) = Links-append n.next y ys last rest in
      let (_, le, lt) = Links-last cells temp n.next y ys last rest in
      (
        m,
        here,
        (
          n,
          rw
              (
                ne→== last a (λ e. omega (arith, le, up)),
                ne→== temp a (λ e. omega (arith, le, up, lt)),
              )
              at,
          p,
          pos,
          up,
          links,
        ),
      )

abbrev behind_state : ℕ → Node → State → State
behind_state element m s = record s {
  queue = record s.queue { tail = s.fresh };
  cells = linked s.cells s.fresh s.queue.tail (new_node element (s.junk s.fresh)) m;
  fresh = s.fresh + 1;
}

abbrev first_state : ℕ → State → State
first_state element s = record s {
  queue = record s.queue { head = s.fresh; tail = s.fresh; data_ = s.fresh };
  cells = put s.fresh (new_node element (s.junk s.fresh)) s.cells;
  fresh = s.fresh + 1;
}

module _ (element : ℕ) (s : State) where
  enqueue-behind :
      (m : Node)
      → s.queue.tail ≢ null
      → s.queue.tail ≢ s.fresh
      → s.cells s.queue.tail ≡ some m
      → enqueue element s ≡ ok (behind_state element m s)
  unfolding enqueue
  enqueue-behind m tail old here =
      rw (ne→== s.queue.tail 0 tail, ne→== s.fresh s.queue.tail (λ e. old (sym e)), here) refl

  pub enqueue-dangling :
      s.queue.tail ≢ null
      → s.queue.tail ≢ s.fresh
      → s.cells s.queue.tail ≡ none
      → enqueue element s ≡ fault
  unfolding enqueue
  enqueue-dangling tail old gone =
      rw (ne→== s.queue.tail 0 tail, ne→== s.fresh s.queue.tail (λ e. old (sym e)), gone) refl

  enqueue-empty : s.queue.tail ≡ null → enqueue element s ≡ ok (first_state element s)
  unfolding enqueue
  enqueue-empty empty = rw empty refl

-- `enqueue` on a queue that is not empty returns, and puts the process behind the others.
pub enqueue-IsQueue :
    (element x : ℕ) (xs : List ℕ) (s : State)
    → IsQueue s x xs
    → (s' : State) × (enqueue element s ≡ ok s') × IsQueue s' x (xs ++ element ∷ [])
enqueue-IsQueue element x xs s (data_, links) =
    let q = s.queue in
    let (pos, le, lt) = Links-last s.cells s.fresh q.head x xs q.tail links in
    let (m, here, links') =
      Links-append s.cells s.fresh element (s.junk s.fresh) q.head x xs q.tail links in
    (
      behind_state element m s,
      enqueue-behind element s m (λ e. omega (arith, pos, le, e)) (λ e. omega (arith, lt, e)) here,
      (data_, links'),
    )

-- On an empty queue `enqueue` starts a new list.
pub enqueue-first :
    (element : ℕ) (s : State)
    → s.queue.tail ≡ null
    → 0 < s.fresh
    → (s' : State) × (enqueue element s ≡ ok s') × IsQueue s' element []
enqueue-first element s empty pos = (
  first_state element s,
  enqueue-empty element s empty,
  (
    refl,
    (
      new_node element (s.junk s.fresh),
      rw (eq→== s.fresh s.fresh refl) refl,
      refl,
      refl,
      refl,
      pos,
      omega arith,
    ),
  ),
)
