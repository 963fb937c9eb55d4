-- ===== src/VmHeap/Reached.antt =====
-- What holds of every heap that calls of PracticumV2/mymalloc.c lead to.
use computersystems_monorepo.Prelude.{
  ℕ, zero, suc, ◌+◌, ◌≤◌, ◌≡◌, ◌⊎◌, subst, refl, arith, inl, inr,
}
use computersystems_monorepo.VmHeap.Disk.{Files, load_page_from_disk}
use computersystems_monorepo.VmHeap.Keeps.{
  IsLaid, IsUser, Allows, same-IsLaid, LaysOut, malloc-LaysOut,
}
use computersystems_monorepo.VmHeap.Head.{IsSameList}
use computersystems_monorepo.VmHeap.Layout.{IsChain}
use computersystems_monorepo.VmHeap.Reach.{Reach, starts, mallocs, frees, gets}
use computersystems_monorepo.VmHeap.SameList.{free-IsLaid, get-IsSameList}
use computersystems_monorepo.VmHeap.TooLarge.{IsSmall, IsReady, load_page_from_disk-exits}
use computersystems_monorepo.VmHeap.{
  page_size, Headers, Os, Heap, Call, returns, exit, out_of_fuel, thread_safe_malloc,
}

pub allowed : {A : Type 0} {a : A} (P : A → Type 0) (c : Call A) → Allows P c → c ≡ returns a → P a
allowed P c h e = subst (λ d. Allows P d) e h

pub Allows-cases :
    {A : Type 0} (P : A → Type 0) (c : Call A)
    → Allows P c
    → (c ≡ exit) ⊎ ((a : A) × (c ≡ returns a) × P a)
Allows-cases P (returns a) h = inr (a, refl, h)
Allows-cases P exit h = inl refl
Allows-cases P out_of_fuel h = absurd h

-- A chain within a page has no block of a page.
chain-IsSmall :
    (count fuel lo hi curr : ℕ) (m : Headers)
    → count ≤ fuel
    → 1 ≤ lo
    → hi ≤ lo + page_size
    → IsChain count lo hi curr m
    → IsSmall fuel curr m
chain-IsSmall zero fuel lo hi curr m enough low short chain = absurd chain
chain-IsSmall (suc count) zero lo hi curr m enough low short chain = absurd (omega (arith, enough))
chain-IsSmall (suc count) (suc fuel) lo hi curr m enough low short (inl end) = inl end
chain-IsSmall (suc count) (suc fuel) lo hi curr m enough low short (inr (from, room, rest)) = inr (
  λ e. omega (arith, from, low, e),
  omega (arith, from, room, short),
  chain-IsSmall count fuel _ hi (m curr).next m (omega (arith, enough)) (omega arith)
      (omega (arith, from, short)) rest,
)

laid-IsReady :
    (count fuel : ℕ) (s : Heap) → 2 ≤ count → count ≤ fuel → IsLaid count s → IsReady fuel s
laid-IsReady count fuel s two enough (inl empty) = inl (empty, omega (arith, two, enough))
laid-IsReady count fuel s two enough (inr (in_use, high, chain)) = inr (
  in_use,
  chain-IsSmall count fuel s.head (s.head + page_size) s.head s.blocks enough
      (omega (arith, in_use)) (omega arith) chain,
)

module _ (os : Os) (user : IsUser os) (fuel : ℕ) where
  pub laid_load_exits :
      (files : Files) (k page_number : ℕ) (s : Heap)
      → suc (suc k) ≤ fuel
      → IsLaid (suc (suc k)) s
      → load_page_from_disk os files fuel page_number s ≡ exit
  laid_load_exits files k page_number s enough laid =
      load_page_from_disk-exits os files fuel page_number s (λ p area. (user p area).0)
        (laid-IsReady (suc (suc k)) fuel s (omega arith) enough laid)

  -- After calls of thread_safe_malloc, of thread_safe_free for NULL and for blocks on the list, and of
  -- pm_get for blocks in use, of which `k` allocate, with nothing written into the blocks, the heap is
  -- not set up, or its list has at most `k + 1` blocks, and they lie one behind the other in the page
  -- that begins at the head, where mmap gives addresses of the lower half and not NULL, and `fuel` is at
  -- least `k + 2`.
  pub reach-IsLaid :
      (k : ℕ) (s : Heap) → suc (suc k) ≤ fuel → Reach os fuel k s → IsLaid (suc (suc k)) s
  reach-IsLaid k s enough (starts fresh) = inl fresh
  reach-IsLaid _ t enough (mallocs {k} {s} n result run e) =
      allowed (LaysOut (suc (suc k))) (thread_safe_malloc os fuel n s)
        (malloc-LaysOut os user k fuel n s (omega (arith, enough))
          (reach-IsLaid k s (omega (arith, enough)) run))
        e
  reach-IsLaid k t enough (frees {s = s} ptr run block e) =
      allowed (IsLaid (suc (suc k))) _
        (free-IsLaid os (suc (suc k)) ptr s (reach-IsLaid k s enough run)) e
  reach-IsLaid k t enough (gets {s = s} ptr value out size run block in_use e) =
      same-IsLaid (suc (suc k)) s t
        (allowed (λ r. IsSameList s r.0) _ (get-IsSameList os ptr value size s) e)
        (reach-IsLaid k s enough run)

  -- Behind such calls, of which `k` allocate, thread_safe_malloc ends within `k + 2` turns of its loop:
  -- it ends the program, or it returns and its blocks lie one behind the other in the page again, where
  -- mmap gives addresses of the lower half and not NULL. Such calls are those of thread_safe_malloc, of
  -- thread_safe_free for NULL and for blocks on the list, and of pm_get for blocks in use, with nothing
  -- written into the blocks.
  pub malloc_ends :
      (k n : ℕ) (s : Heap)
      → suc (suc k) ≤ fuel
      → Reach os fuel k s
      → (thread_safe_malloc os fuel n s ≡ exit)
        ⊎ ((t : Heap) × (result : ℕ) × (thread_safe_malloc os fuel n s ≡ returns (t, result))
            × IsLaid (suc (suc (suc k))) t)
  malloc_ends k n s enough run =
      elim (Allows-cases (LaysOut (suc (suc k))) (thread_safe_malloc os fuel n s)
        (malloc-LaysOut os user k fuel n s enough (reach-IsLaid k s enough run))) [
          | inl ended ↦ inl ended
          | inr ((t, result), e, laid) ↦ inr (t, result, e, laid)
        ]
