-- ===== src/HeapThreads/Tests.antt =====
-- A run of the start of the program: thread 0 is created and allocates.
use mathlib.Core.Option.{some-injective}
use computersystems_monorepo.Prelude.{
  ℕ, ◌+◌, ◌≤◌, ◌≡◌, ◌≢◌, ◌⊎◌, refl, arith, true, update, none, some, [],
}
use computersystems_monorepo.VmHeap.{null, zero_header, Os, Heap, returns, exit, thread_safe_malloc}
use computersystems_monorepo.VmHeap.Disk.{Files}
use computersystems_monorepo.VmHeap.Head.{Gives}
use computersystems_monorepo.VmHeap.Keeps.{IsLaid, IsUser}
use computersystems_monorepo.VmHeap.Reach.{Reach, starts, mallocs}
use computersystems_monorepo.VmHeap.Reached.{reach-IsLaid, malloc_ends}
use computersystems_monorepo.VmHeap.Reuse.{first_call_null}
use computersystems_monorepo.HeapThreads.{
  unborn, running, exited, allocates, frees, next_first, creates, simulates, World, Step, create,
  runs_first, Run, begins, goes_on,
}
use computersystems_monorepo.HeapThreads.Ends.{EndsNext, start_ends}

abbrev os : Os
os = record {
  phys_mem = 4096;
  area = some 65536;
  page = λ i. some (i + 90000);
  saves = λ _. true;
  has_room = true;
  loads = λ _. none;
}

abbrev files : Files
files = record { dirty_file = true; test_input = none; unmaps = λ _. true; maps = λ _. some 90000 }

os-IsUser : IsUser os
os-IsUser p area =
    let e : 65536 ≡ p = some-injective 65536 p area in
    (λ null. omega (arith, null, e), omega (arith, e))

os-Gives : Gives os
os-Gives i = (i + 90000, refl)

abbrev fresh : Heap
fresh = record {
  head = null;
  blocks = λ _. zero_header;
  bytes = λ _. 0;
  page_tab = λ _. 0;
  dirty = λ _. 0;
  page_number = 0;
  page_table = [];
}

-- The heap that the first call leaves.
allocated : (s : Heap) × (thread_safe_malloc os 78 10 fresh ≡ returns (s, null))
allocated =
    let (s, e, _, _) =
      first_call_null os 77 10 65536 fresh os-Gives refl refl (λ e. omega arith) (omega arith)
        (omega arith) in
    (s, e)

abbrev after : Heap
after = allocated.0

after-Reach : Reach os 78 1 after
after-Reach = mallocs 10 null (starts refl) allocated.1

reach-IsLaid_example : IsLaid 3 after
reach-IsLaid_example = reach-IsLaid os os-IsUser 78 1 after (omega arith) after-Reach

malloc_ends_example :
    (thread_safe_malloc os 78 10 after ≡ exit)
    ⊎ ((t : Heap) × (result : ℕ) × (thread_safe_malloc os 78 10 after ≡ returns (t, result))
        × IsLaid 4 t)
malloc_ends_example = malloc_ends os os-IsUser 78 1 10 after (omega arith) after-Reach

abbrev began : World
began = record {
  shared = record { heap = fresh; shared_data = 0 };
  main = creates 0;
  first = λ i. unborn;
  second = λ i. unborn;
}

abbrev one_thread : World
one_thread = record began { main = creates 1; first = update (λ i. unborn) 0 (running allocates) }

abbrev one_block : World
one_block = record one_thread {
  shared = record { heap = after; shared_data = 0 };
  first = update (update (λ i. unborn) 0 (running allocates)) 0 (running (frees null));
}

first_allocates : next_first os 78 allocates fresh ≡ returns (after, running (frees null))
unfolding next_first
first_allocates = rw (allocated.1, next_first) refl

two_steps : Run os files 78 fresh 2 one_block
two_steps =
    goes_on {w = one_thread} (goes_on {w = began} begins (create 0 refl (omega arith)))
      (runs_first 0 allocates after (running (frees null)) (omega arith) refl first_allocates)

start_ends_example :
    (2 ≤ 76)
    × (one_block.main ≢ simulates)
    × ((t : ℕ) → one_block.second t ≢ exited)
    × (((w : World) × Step os files 78 one_block w) ⊎ EndsNext os files 78 one_block)
start_ends_example = start_ends os files os-IsUser 78 (omega arith) fresh refl 2 one_block two_steps
