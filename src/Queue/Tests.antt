-- ===== src/Queue/Tests.antt =====
-- A small queue, and the theorems at it.
use computersystems_monorepo.Prelude.{ℕ, ◌≡◌, refl, none}
use computersystems_monorepo.Queue.{null, Node, State, ok, make_queue, dequeue, qsize}
use computersystems_monorepo.Queue.Reach.{made, dequeue-never}

abbrev node : (next p : ℕ) → Node
node next p = record { next = next; prev = 5; val = 6; p = p }

abbrev new : State
new = record { queue = make_queue; cells = λ _. none; fresh = 8; junk = λ _. node 7 7 }

dequeue-never_example :
    (qsize make_queue ≡ 0) × (s' : State) × (dequeue new ≡ ok (s', null)) × (s'.cells ≡ new.cells)
dequeue-never_example = dequeue-never new (made new refl)
