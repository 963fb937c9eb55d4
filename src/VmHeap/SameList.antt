-- ===== src/VmHeap/SameList.antt =====
-- The calls of PracticumV2/mymalloc.c that allocate nothing leave the list of blocks, or its sizes and
-- links.
use computersystems_monorepo.Prelude.{
  ℕ, ◌+◌, refl, ◌&&◌, ◌==◌, inl, inr, ==→eq, Bool-cases, Option-cases,
}
use computersystems_monorepo.VmHeap.Layout.{IsChain-agree}
use computersystems_monorepo.VmHeap.Client.{
  block_of, clean, forget, thread_safe_free, pm_put, fetch, pm_get, save_dirty_page,
}
use computersystems_monorepo.VmHeap.Disk.{Files, save_dirty_page_to_disk, swap_page}
use computersystems_monorepo.VmHeap.Keeps.{IsLaid, Allows, Allows-and_then, same-IsLaid}
use computersystems_monorepo.VmHeap.Head.{IsSameList}
use computersystems_monorepo.VmHeap.{null, page_size, Header, Os, Heap, returns}

clean-IsSameList : (os : Os) (page : ℕ) (s : Heap) → Allows (IsSameList s) (clean os page s)
unfolding clean
clean-IsSameList os page s = elim (Bool-cases (s.dirty page == 0)) [
  | inl clean_page ↦ rw (clean_page, clean) (refl, refl)
  | inr dirty_page ↦ elim (Bool-cases (os.saves page && os.has_room)) [
    | inl saved ↦ rw (dirty_page, saved, clean) (refl, refl)
    | inr failed ↦ rw (dirty_page, failed, clean) tt
  ]
]

-- A header that is marked free keeps its size and its link.
forget-IsLaid : (count block : ℕ) (s : Heap) → IsLaid count s → IsLaid count (forget block s)
unfolding forget
forget-IsLaid count block s (inl empty) = inl empty
forget-IsLaid count block s (inr (in_use, high, chain)) = inr (
  in_use,
  high,
  IsChain-agree count s.head (s.head + page_size) s.head s.blocks _
      (λ a le. elim (Bool-cases (block == a)) [
        | inl same ↦ rw (same, ==→eq block a same) (refl, refl)
        | inr other ↦ rw other (refl, refl)
      ])
      chain,
)

pub free-IsLaid :
    (os : Os) (count ptr : ℕ) (s : Heap)
    → IsLaid count s
    → Allows (IsLaid count) (thread_safe_free os ptr s)
unfolding thread_safe_free
free-IsLaid os count ptr s laid = elim (Bool-cases (ptr == null)) [
  | inl is_null ↦ rw (is_null, thread_safe_free) laid
  | inr some_ptr ↦
      rw (some_ptr, thread_safe_free)
        (Allows-and_then (IsSameList s) (IsLaid count)
          (clean os (s.blocks (block_of ptr)).page_num s) (λ t. returns (forget (block_of ptr) t))
          (clean-IsSameList os (s.blocks (block_of ptr)).page_num s)
          (λ t same. forget-IsLaid count (block_of ptr) t (same-IsLaid count s t same laid)))
]

pub put-IsSameList :
    (ptr : ℕ) (value : ℕ → ℕ) (size : ℕ) (s : Heap) → IsSameList s (pm_put ptr value size s)
unfolding pm_put
put-IsSameList ptr value size s = elim (Bool-cases ((s.blocks (block_of ptr)).size == size)) [
  | inl same ↦ rw (same, pm_put) (refl, refl)
  | inr other ↦ rw (other, pm_put) (refl, refl)
]

fetch-IsSameList : (os : Os) (b : Header) (s : Heap) → Allows (IsSameList s) (fetch os b s)
unfolding fetch
fetch-IsSameList os b s = elim (Bool-cases (b.free == 0)) [
  | inl used ↦ rw (used, fetch) (refl, refl)
  | inr free ↦ elim (Option-cases (os.loads b.page_num)) [
    | inl failed ↦ rw (free, failed, fetch) tt
    | inr (page, e) ↦ rw (free, e, fetch) (refl, refl)
  ]
]

pub get-IsSameList :
    (os : Os) (ptr : ℕ) (value : ℕ → ℕ) (size : ℕ) (s : Heap)
    → Allows (λ r. IsSameList s r.0) (pm_get os ptr value size s)
unfolding pm_get
get-IsSameList os ptr value size s =
    let b = s.blocks (block_of ptr) in
    elim (Bool-cases (b.size == size)) [
      | inl same ↦
          rw (same, pm_get)
            (Allows-and_then (IsSameList s) (λ r. IsSameList s r.0) (fetch os b s) _
              (fetch-IsSameList os b s) (λ t kept. kept))
      | inr other ↦ rw (other, pm_get) (refl, refl)
    ]

pub save-IsSameList :
    (os : Os) (page : ℕ) (s : Heap) → Allows (IsSameList s) (save_dirty_page os page s)
unfolding save_dirty_page
save-IsSameList os page s = elim (Bool-cases (s.dirty page == 0)) [
  | inl clean_page ↦ rw (clean_page, save_dirty_page) (refl, refl)
  | inr dirty_page ↦ elim (Bool-cases (os.saves page)) [
    | inl saved ↦ rw (dirty_page, saved, save_dirty_page) (refl, refl)
    | inr failed ↦ rw (dirty_page, failed, save_dirty_page) tt
  ]
]

module _ (files : Files) (page : ℕ) (s : Heap) where
  pub save_to_disk-IsSameList :
      (page_table : ℕ → ℕ)
      → Allows (λ r. IsSameList s r.0) (save_dirty_page_to_disk files page_table page s)
  unfolding save_dirty_page_to_disk
  save_to_disk-IsSameList page_table = elim (Bool-cases files.dirty_file) [
    | inl opened ↦ rw (opened, save_dirty_page_to_disk) (refl, refl)
    | inr failed ↦ rw (failed, save_dirty_page_to_disk) tt
  ]

  pub swap-IsSameList : Allows (IsSameList s) (swap_page files page s)
  unfolding swap_page
  swap-IsSameList = elim (Bool-cases (files.unmaps page)) [
    | inl unmapped ↦ elim (Option-cases (files.maps page)) [
      | inl failed ↦ rw (unmapped, failed, swap_page) tt
      | inr (new_page, e) ↦ rw (unmapped, e, swap_page) (refl, refl)
    ]
    | inr failed ↦ rw (failed, swap_page) tt
  ]
