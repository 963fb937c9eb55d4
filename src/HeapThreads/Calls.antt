-- ===== src/HeapThreads/Calls.antt =====
-- One step of a thread of PracticumV2/main.c: it keeps the layout of the heap, and never gets behind
-- the call of load_page_from_disk.
use computersystems_monorepo.Prelude.{ℕ, suc, ◌≤◌, ◌<◌, ◌==◌, arith, Bool-cases, inl, inr}
use computersystems_monorepo.VmHeap.{null, Os, Heap, returns, thread_safe_malloc}
use computersystems_monorepo.VmHeap.Client.{thread_safe_free}
use computersystems_monorepo.VmHeap.Disk.{Files, save_dirty_page_to_disk}
use computersystems_monorepo.VmHeap.Keeps.{
  IsLaid, IsUser, Allows, Allows-and_then, same-IsLaid, more-IsLaid, LaysOut, malloc-LaysOut,
}
use computersystems_monorepo.VmHeap.Head.{IsSameList}
use computersystems_monorepo.VmHeap.Reached.{laid_load_exits}
use computersystems_monorepo.VmHeap.SameList.{free-IsLaid, save_to_disk-IsSameList}
use computersystems_monorepo.HeapThreads.{
  Thread, unborn, running, exited, First, allocates, frees, next_first, Shared, Second, loads_data,
  stores_data, takes, writes, saves, loads, swaps, cleans, puts, gets, frees_page, frees_ptr,
  page_number, pointers, goes, next_second,
}

-- The steps that a thread has left; those of a thread that is not created count with `main`.
abbrev pub first_left : Thread First → ℕ
first_left unborn = 0
first_left (running allocates) = 2
first_left (running (frees mem)) = 1
first_left exited = 0

abbrev pub second_left : Thread Second → ℕ
second_left unborn = 0
second_left (running loads_data) = 12
second_left (running (stores_data value)) = 11
second_left (running takes) = 10
second_left (running (writes ptr)) = 9
second_left (running (saves ptr)) = 8
second_left (running (loads ptr)) = 7
second_left (running (swaps ptr page)) = 6
second_left (running (cleans ptr page)) = 5
second_left (running (puts ptr page)) = 4
second_left (running (gets ptr page)) = 3
second_left (running (frees_page ptr page)) = 2
second_left (running (frees_ptr ptr)) = 1
second_left exited = 0

abbrev pub IsBorn : {A : Type 0} → Thread A → Type 0
IsBorn unborn = ⊥
IsBorn (running place) = Unit
IsBorn exited = Unit

-- The thread is not behind its call of `load_page_from_disk`.
abbrev pub IsEarly : Thread Second → Type 0
IsEarly unborn = Unit
IsEarly (running place) = 7 ≤ second_left (running place)
IsEarly exited = ⊥

-- What the step of a thread leaves behind `n` steps of the program.
abbrev pub FirstGoes : (n : ℕ) → First → Heap × Thread First → Type 0
FirstGoes n place r =
    IsLaid (suc (suc (suc n))) r.0 × (first_left r.1 < first_left (running place)) × IsBorn r.1

abbrev pub SecondGoes : (n : ℕ) → Second → Shared × Thread Second → Type 0
SecondGoes n place r =
    IsLaid (suc (suc (suc n))) r.0.heap
    × (second_left r.1 < second_left (running place))
    × IsBorn r.1
    × IsEarly r.1

module _ (os : Os) (files : Files) (user : IsUser os) (fuel n : ℕ)
    (enough : suc (suc n) ≤ fuel) where
  pub next_first-goes :
      (place : First) (s : Heap)
      → IsLaid (suc (suc n)) s
      → Allows (FirstGoes n place) (next_first os fuel place s)
  unfolding next_first
  next_first-goes allocates s laid =
      Allows-and_then (LaysOut (suc (suc n))) (FirstGoes n allocates)
        (thread_safe_malloc os fuel 10 s) (λ r. returns (r.0, running (frees r.1)))
        (malloc-LaysOut os user n fuel 10 s enough laid) (λ r kept. (kept, omega arith, tt))
  next_first-goes (frees mem) s laid =
      Allows-and_then (IsLaid (suc (suc n))) (FirstGoes n (frees mem)) (thread_safe_free os mem s)
        (λ t. returns (t, exited)) (free-IsLaid os (suc (suc n)) mem s laid)
        (λ t kept. (more-IsLaid (suc (suc n)) t kept, omega arith, tt))

  pub next_second-goes :
      (tid : ℕ) (place : Second) (g : Shared)
      → IsEarly (running place)
      → IsLaid (suc (suc n)) g.heap
      → Allows (SecondGoes n place) (next_second os files fuel tid place g)
  unfolding next_second
  next_second-goes tid loads_data g early laid =
      (more-IsLaid (suc (suc n)) g.heap laid, omega arith, tt, omega arith)
  next_second-goes tid (stores_data value) g early laid =
      (more-IsLaid (suc (suc n)) g.heap laid, omega arith, tt, omega arith)
  next_second-goes tid takes g early laid =
      Allows-and_then (LaysOut (suc (suc n))) (SecondGoes n takes)
        (thread_safe_malloc os fuel 4 g.heap) (λ r. goes (writes r.1) g r.0)
        (malloc-LaysOut os user n fuel 4 g.heap enough laid)
        (λ r kept. (kept, omega arith, tt, omega arith))
  next_second-goes tid (writes ptr) g early laid = elim (Bool-cases (ptr == null)) [
    | inl is_null ↦ rw (is_null, next_second) tt
    | inr some_ptr ↦
        rw (some_ptr, next_second)
          (more-IsLaid (suc (suc n)) g.heap laid, omega arith, tt, omega arith)
  ]
  next_second-goes tid (saves ptr) g early laid =
      Allows-and_then (λ r. IsSameList g.heap r.0) (SecondGoes n (saves ptr))
        (save_dirty_page_to_disk files (pointers g.heap.page_tab) page_number g.heap)
        (λ r. goes (loads ptr) g r.0)
        (save_to_disk-IsSameList files page_number g.heap (pointers g.heap.page_tab))
        (λ r same. (
          more-IsLaid (suc (suc n)) r.0 (same-IsLaid (suc (suc n)) g.heap r.0 same laid),
          omega arith,
          tt,
          omega arith,
        ))
  next_second-goes tid (loads ptr) g early laid =
      rw (laid_load_exits os user fuel files n page_number g.heap enough laid, next_second) tt
  next_second-goes tid (swaps ptr page) g early laid = absurd (omega (arith, early))
  next_second-goes tid (cleans ptr page) g early laid = absurd (omega (arith, early))
  next_second-goes tid (puts ptr page) g early laid = absurd (omega (arith, early))
  next_second-goes tid (gets ptr page) g early laid = absurd (omega (arith, early))
  next_second-goes tid (frees_page ptr page) g early laid = absurd (omega (arith, early))
  next_second-goes tid (frees_ptr ptr) g early laid = absurd (omega (arith, early))
