-- ===== src/VmHeap/Keeps.antt =====
-- Every call of PracticumV2/mymalloc.c keeps the layout of the heap, where it returns.
use computersystems_monorepo.Prelude.{
  ℕ, suc, ◌+◌, ◌^◌, ◌≤◌, ◌<◌, ◌≡◌, ◌≢◌, ◌⊎◌, refl, arith, not, ◌&&◌, ltb, ◌==◌, some, inl, inr,
  eq→==, Bool-cases, Option-cases,
}
use computersystems_monorepo.VmHeap.Layout.{IsChain, IsChain-more}
use computersystems_monorepo.VmHeap.Search.{search-IsFound}
use computersystems_monorepo.VmHeap.Head.{IsSameList, malloc-serve}
use computersystems_monorepo.VmHeap.Reuse.{begun, malloc-begun}
use computersystems_monorepo.VmHeap.TooLarge.{malloc-exits}
use computersystems_monorepo.VmHeap.{
  null, page_size, num_pages, absent, Headers, Os, Heap, Call, returns, exit, out_of_fuel, and_then,
  claim, page_of, add_page, register, hand_out, serve, thread_safe_malloc,
}

-- `head` is NULL, or the list is a chain of at most `count` links in the page that begins at `head`.
abbrev pub IsLaid : (count : ℕ) → Heap → Type 0
IsLaid count s =
    (s.head ≡ null)
    ⊎ ((s.head ≢ null)
        × (s.head + page_size < 2 ^ 63)
        × IsChain count s.head (s.head + page_size) s.head s.blocks)

-- `mmap` gives no NULL, and addresses in the lower half.
abbrev pub IsUser : Os → Type 0
IsUser os = (p : ℕ) → os.area ≡ some p → (p ≢ null) × (p + page_size < 2 ^ 63)

-- A call ends the program, or returns a result that satisfies `P`.
abbrev pub Allows : {A : Type 0} → (A → Type 0) → Call A → Type 0
Allows P (returns a) = P a
Allows P exit = Unit
Allows P out_of_fuel = ⊥

pub Allows-and_then :
    {A B : Type 0} (P : A → Type 0) (Q : B → Type 0) (c : Call A) (next : A → Call B)
    → Allows P c
    → ((a : A) → P a → Allows Q (next a))
    → Allows Q (and_then c next)
Allows-and_then P Q (returns a) next h step = step a h
Allows-and_then P Q exit next h step = tt
Allows-and_then P Q out_of_fuel next h step = absurd h

pub same-IsLaid : (count : ℕ) (s t : Heap) → IsSameList s t → IsLaid count s → IsLaid count t
same-IsLaid count s t (head, blocks) laid = rw (head, blocks) laid

pub more-IsLaid : (count : ℕ) (s : Heap) → IsLaid count s → IsLaid (suc count) s
more-IsLaid count s (inl empty) = inl empty
more-IsLaid count s (inr (in_use, high, chain)) =
    inr (in_use, high, IsChain-more count s.head (s.head + page_size) s.head s.blocks chain)

register-IsSameList :
    (os : Os) (result n : ℕ) (s : Heap) → Allows (IsSameList s) (register os result n s)
unfolding register add_page
register-IsSameList os result n s =
    let page_num = page_of os result in
    elim (Bool-cases (ltb page_num page_size && not (s.page_tab page_num == absent))) [
      | inl known ↦ rw known (refl, refl)
      | inr unknown ↦ elim (Bool-cases (ltb page_num num_pages)) [
        | inl index ↦ elim (Option-cases (os.page s.page_number)) [
          | inl no_page ↦ rw (unknown, index, no_page, add_page) tt
          | inr (page, e) ↦ rw (unknown, index, e, add_page) (refl, refl)
        ]
        | inr no_index ↦ rw (unknown, no_index) (refl, refl)
      ]
    ]

-- What `thread_safe_malloc` returns: the layout is kept, with a link more.
abbrev pub LaysOut : (count : ℕ) → Heap × ℕ → Type 0
LaysOut count r = IsLaid (suc count) r.0

module _ (os : Os) (count n : ℕ) (s : Heap) where
  hand_out-LaysOut :
      (blocks : Headers) (result : ℕ)
      → IsLaid (suc count) (record s { blocks = blocks })
      → Allows (LaysOut count) (hand_out os n (blocks, result) s)
  unfolding hand_out
  hand_out-LaysOut blocks result laid = elim (Bool-cases (result == null)) [
    | inl is_null ↦ rw (is_null, hand_out) laid
    | inr some_block ↦
        rw (some_block, hand_out)
          (Allows-and_then (IsSameList (record s { blocks = blocks })) (LaysOut count)
            (register os result n (record s { blocks = blocks })) (λ t. returns (t, result))
            (register-IsSameList os result n (record s { blocks = blocks }))
            (λ t same. same-IsLaid (suc count) (record s { blocks = blocks }) t same laid))
  ]

  serve-LaysOut :
      (p : ℕ)
      → IsLaid count s
      → (p ≢ null → IsLaid (suc count) (record s { blocks = (claim n p s.blocks).0 }))
      → Allows (LaysOut count) (serve os n p s)
  unfolding serve
  serve-LaysOut p laid claimed = elim (Bool-cases (p == null)) [
    | inl none_found ↦ rw (none_found, serve) (more-IsLaid count s laid)
    | inr found ↦
        rw (found, serve)
          (hand_out-LaysOut (claim n p s.blocks).0 (claim n p s.blocks).1
            (claimed λ e. absurd (ground (arith, found, e))))
  ]

  in_use-LaysOut :
      (fuel : ℕ)
      → count ≤ fuel
      → s.head ≢ null
      → s.head + page_size < 2 ^ 63
      → IsChain count s.head (s.head + page_size) s.head s.blocks
      → Allows (LaysOut count) (thread_safe_malloc os fuel n s)
  in_use-LaysOut fuel enough in_use high chain =
      let (p, e, found) =
        search-IsFound count fuel n s.head (s.head + page_size) s.head s.blocks high
          (omega (arith, in_use)) enough chain in
      rw (malloc-serve os fuel n p s in_use e) (
        serve-LaysOut p (inr (in_use, high, chain)) λ some_block. elim found [
          | inl no_block ↦ absurd (some_block no_block)
          | inr (from, (chain', below)) ↦ inr (in_use, high, chain')
        ])

module _ (os : Os) (user : IsUser os) where
  begun-IsLaid : (count p : ℕ) (s : Heap) → os.area ≡ some p → IsLaid (suc (suc count)) (begun p s)
  begun-IsLaid count p s area =
      let (pos, high) = user p area in
      inr (
        pos,
        high,
        inr (omega arith, rw (eq→== p p refl) (omega arith), rw (eq→== p p refl) (inl refl)),
      )

  begun-LaysOut :
      (count fuel n p : ℕ) (s : Heap)
      → os.area ≡ some p
      → suc (suc count) ≤ fuel
      → Allows (LaysOut (suc (suc count))) (thread_safe_malloc os fuel n (begun p s))
  begun-LaysOut count fuel n p s area enough = elim (begun-IsLaid count p s area) [
    | inl empty ↦ absurd ((user p area).0 empty)
    | inr (in_use, high, chain) ↦
        in_use-LaysOut os (suc (suc count)) n (begun p s) fuel enough in_use high chain
  ]

  -- The call ends the program or returns, and keeps the layout.
  pub malloc-LaysOut :
      (count fuel n : ℕ) (s : Heap)
      → suc (suc count) ≤ fuel
      → IsLaid (suc (suc count)) s
      → Allows (LaysOut (suc (suc count))) (thread_safe_malloc os fuel n s)
  malloc-LaysOut count fuel n s enough (inr (in_use, high, chain)) =
      in_use-LaysOut os (suc (suc count)) n s fuel enough in_use high chain
  malloc-LaysOut count fuel n s enough (inl empty) = elim (Option-cases os.area) [
    | inl none_there ↦ rw (malloc-exits os fuel n s empty none_there) tt
    | inr (p, area) ↦
        rw (malloc-begun os fuel n p s empty area (user p area).0)
          (begun-LaysOut count fuel n p s area enough)
  ]
