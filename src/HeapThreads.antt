-- ===== src/HeapThreads.antt =====
-- The start of PracticumV2/main.c: main runs thread_function in four threads and waits for them, then
-- thread_func2 in four more, and only then sets up the simulation. The calls of the heap in the threads
-- come in any order, one at a time. `pthread_create` works.
pub mod Calls
mod Ends
pub mod Kept
mod Runs
mod Tests
use computersystems_monorepo.Prelude.{
  ℕ, suc, ◌+◌, ◌*◌, ◌/◌, ◌%◌, ◌^◌, ◌<◌, ◌≡◌, ltb, ◌==◌, if◌then◌else◌, update,
}
use computersystems_monorepo.SharedData.{num_threads}
use computersystems_monorepo.VmHeap.{
  null, num_pages, absent, Os, Heap, Call, returns, exit, and_then, thread_safe_malloc,
}
use computersystems_monorepo.VmHeap.Client.{copy, thread_safe_free, pm_put, pm_get, save_dirty_page}
use computersystems_monorepo.VmHeap.Disk.{
  Files, save_dirty_page_to_disk, load_page_from_disk, swap_page,
}

-- A thread that is not created yet, one at a place of its function, and one behind `pthread_exit`.
pub data Thread (A : Type 0) : Type 0 where
  unborn : Thread A
  running : A → Thread A
  exited : Thread A

-- The calls of `thread_function` that are left; `frees` has the pointer.
pub data First : Type 0 where
  allocates : First
  frees : (mem : ℕ) → First

unfoldable pub next_first : Os → (fuel : ℕ) → First → Heap → Call (Heap × Thread First)
next_first os fuel allocates s =
    and_then (thread_safe_malloc os fuel 10 s) λ (t, mem). returns (t, running (frees mem))
next_first os fuel (frees mem) s = and_then (thread_safe_free os mem s) λ t. returns (t, exited)

-- What the threads share.
pub record Shared : Type 0 where
  pub heap : Heap
  pub shared_data : ℕ

-- The places of `thread_func2`, with the values of its variables that matter later: before the load and
-- before the store of `shared_data += 1`, and before each of the calls.
pub data Second : Type 0 where
  loads_data : Second
  stores_data : (value : ℕ) → Second
  takes : Second
  writes : (ptr : ℕ) → Second
  saves : (ptr : ℕ) → Second
  loads : (ptr : ℕ) → Second
  swaps : (ptr page : ℕ) → Second
  cleans : (ptr page : ℕ) → Second
  puts : (ptr page : ℕ) → Second
  gets : (ptr page : ℕ) → Second
  frees_page : (ptr page : ℕ) → Second
  frees_ptr : (ptr : ℕ) → Second

-- The global `pageNumber`, which nothing changes: thread_safe_malloc has a variable of its own with
-- this name.
abbrev pub page_number : ℕ
page_number = 0

-- The bytes of an `int`.
abbrev pub int_bytes : ℕ → ℕ → ℕ
int_bytes v i = v / 2 ^ (8 * i) % 256

-- `pageTab`, whose type is `int[]`, read as pointers: two entries make one. Where `fwrite` of such an
-- address ends the program, it ends earlier than here.
abbrev pub pointers : (ℕ → ℕ) → ℕ → ℕ
pointers page_tab i = page_tab (2 * i) + 2 ^ 32 * page_tab (2 * i + 1)

abbrev pub goes : Second → Shared → Heap → Call (Shared × Thread Second)
goes place g t = returns (record g { heap = t }, running place)

-- One step of `thread_func2`. `*ptr = tid` with NULL ends the program like `exit`.
unfoldable pub next_second :
    Os → Files → (fuel tid : ℕ) → Second → Shared → Call (Shared × Thread Second)
next_second os files fuel tid loads_data g = returns (g, running (stores_data g.shared_data))
next_second os files fuel tid (stores_data value) g =
    returns (record g { shared_data = value + 1 }, running takes)
next_second os files fuel tid takes g =
    and_then (thread_safe_malloc os fuel 4 g.heap) λ (t, ptr). goes (writes ptr) g t
next_second os files fuel tid (writes ptr) g =
    if ptr == null
    then exit
    else goes (saves ptr) g (record g.heap { bytes = copy ptr 4 (int_bytes tid) g.heap.bytes })
next_second os files fuel tid (saves ptr) g =
    and_then (save_dirty_page_to_disk files (pointers g.heap.page_tab) page_number g.heap)
      λ (t, saved). goes (loads ptr) g t
next_second os files fuel tid (loads ptr) g =
    and_then (load_page_from_disk os files fuel page_number g.heap)
      λ (t, page). goes (swaps ptr page) g t
next_second os files fuel tid (swaps ptr page) g =
    and_then (swap_page files page_number g.heap) (goes (cleans ptr page) g)
next_second os files fuel tid (cleans ptr page) g =
    and_then (save_dirty_page os page_number g.heap) (goes (puts ptr page) g)
next_second os files fuel tid (puts ptr page) g =
    goes (gets ptr page) g (pm_put ptr (int_bytes (tid + 1)) 4 g.heap)
next_second os files fuel tid (gets ptr page) g =
    and_then (pm_get os ptr (int_bytes 0) 4 g.heap) λ (t, result). goes (frees_page ptr page) g t
next_second os files fuel tid (frees_page ptr page) g =
    and_then (thread_safe_free os page g.heap) (goes (frees_ptr ptr) g)
next_second os files fuel tid (frees_ptr ptr) g =
    and_then (thread_safe_free os ptr g.heap) λ t. returns (record g { heap = t }, exited)

-- Where `main` stands: in one of its four loops, at the thread with this number, or behind them.
pub data Main : Type 0 where
  creates : (i : ℕ) → Main
  joins : (i : ℕ) → Main
  creates_second : (i : ℕ) → Main
  joins_second : (i : ℕ) → Main
  simulates : Main

pub record World : Type 0 where
  pub shared : Shared
  pub main : Main
  pub first : ℕ → Thread First
  pub second : ℕ → Thread Second

-- The `memset` of `pageTab` and `dirty`.
abbrev pub reset_tables : Heap → Heap
reset_tables s = record s {
  page_tab = λ i. if ltb i num_pages then absent else s.page_tab i;
  dirty = λ i. if ltb i num_pages then 0 else s.dirty i;
}

-- A step of one thread. Where its call ends the program there is none.
pub data Step (os : Os) (files : Files) (fuel : ℕ) (w : World) : World → Type 0 where
  create :
      (i : ℕ)
      → w.main ≡ creates i
      → i < num_threads
      → Step os files fuel w
          (record w { main = creates (suc i); first = update w.first i (running allocates) })
  created : w.main ≡ creates num_threads → Step os files fuel w (record w { main = joins 0 })
  join :
      (i : ℕ)
      → w.main ≡ joins i
      → i < num_threads
      → w.first i ≡ exited
      → Step os files fuel w (record w { main = joins (suc i) })
  joined :
      w.main ≡ joins num_threads
      → Step os files fuel w (record w {
        main = creates_second 0;
        shared = record w.shared { heap = reset_tables w.shared.heap };
      })
  create_second :
      (i : ℕ)
      → w.main ≡ creates_second i
      → i < num_threads
      → Step os files fuel w (record w {
        main = creates_second (suc i);
        second = update w.second i (running loads_data);
      })
  created_second :
      w.main ≡ creates_second num_threads
      → Step os files fuel w (record w { main = joins_second 0 })
  join_second :
      (i : ℕ)
      → w.main ≡ joins_second i
      → i < num_threads
      → w.second i ≡ exited
      → Step os files fuel w (record w { main = joins_second (suc i) })
  joined_second :
      w.main ≡ joins_second num_threads → Step os files fuel w (record w { main = simulates })
  runs_first :
      (i : ℕ) (place : First) (t : Heap) (thread : Thread First)
      → i < num_threads
      → w.first i ≡ running place
      → next_first os fuel place w.shared.heap ≡ returns (t, thread)
      → Step os files fuel w
          (record w { shared = record w.shared { heap = t }; first = update w.first i thread })
  runs_second :
      (i : ℕ) (place : Second) (g : Shared) (thread : Thread Second)
      → i < num_threads
      → w.second i ≡ running place
      → next_second os files fuel i place w.shared ≡ returns (g, thread)
      → Step os files fuel w (record w { shared = g; second = update w.second i thread })

-- The runs of the program, with their number of steps.
pub data Run (os : Os) (files : Files) (fuel : ℕ) (start : Heap) : ℕ → World → Type 0 where
  begins : Run os files fuel start 0 (record {
    shared = record { heap = start; shared_data = 0 };
    main = creates 0;
    first = λ i. unborn;
    second = λ i. unborn;
  })
  goes_on :
      {n : ℕ} {w w' : World}
      → Run os files fuel start n w
      → Step os files fuel w w'
      → Run os files fuel start (suc n) w'
