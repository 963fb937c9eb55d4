-- ===== src/PageHeap/Pages.antt =====
-- What pm_malloc_lock does to the pages.
use computersystems_monorepo.Prelude.{
  ℕ, ◌+◌, ◌≡◌, ◌∙◌, subst, arith, ◌&&◌, ltb, ◌==◌, if◌then◌else◌, repeat_from_inv, Bool-cases, inl,
  inr, ==→eq,
}
use computersystems_monorepo.Paging.{
  Statuses, used_bit, dirty_bit, num_pages, set_page_dirty, set_bit,
}
use computersystems_monorepo.PageHeap.{Mmap, allocate_page, allocate_if_used, allocate_used}

-- A page that is used and not dirty becomes dirty, where the first call of mmap works.
abbrev pub mapped : Mmap → (page_num status : ℕ) → ℕ
mapped mmap page_num status =
    if (status == used_bit) && mmap.anonymous page_num then used_bit + dirty_bit else status

allocate_if_used_lem :
    (mmap : Mmap) (p i : ℕ) (pageing : Statuses)
    → allocate_if_used mmap p pageing i ≡ (if i == p then mapped mmap p (pageing p) else pageing i)
unfolding allocate_if_used allocate_page set_page_dirty set_bit
allocate_if_used_lem mmap p i pageing = ground arith

-- The statuses before and after the page `k` was looked at.
step_lem :
    (mmap : Mmap) (pageing t : Statuses) (i k : ℕ)
    → t i ≡ (if ltb i k then mapped mmap i (pageing i) else pageing i)
    → (if i == k then mapped mmap k (t k) else t i)
      ≡ (if ltb i (k + 1) then mapped mmap i (pageing i) else pageing i)
step_lem mmap pageing t i k h = elim (Bool-cases (i == k)) [
  | inl here ↦
      subst
        (λ k.
          t i ≡ (if ltb i k then mapped mmap i (pageing i) else pageing i)
          → (if i == k then mapped mmap k (t k) else t i)
            ≡ (if ltb i (k + 1) then mapped mmap i (pageing i) else pageing i))
        (==→eq i k here) (λ before. ground arith) h
  | inr other ↦ ground arith
]

-- Every page below `num_pages` is looked at once.
pub allocate_used_lem :
    (mmap : Mmap) (pageing : Statuses) (i : ℕ)
    → allocate_used mmap pageing i
      ≡ (if ltb i num_pages then mapped mmap i (pageing i) else pageing i)
unfolding allocate_used
allocate_used_lem mmap pageing i =
    repeat_from_inv
      (λ j statuses. statuses i ≡ (if ltb i j then mapped mmap i (pageing i) else pageing i))
      (allocate_if_used mmap) 0 num_pages num_pages pageing (omega arith)
      (λ k t lo hi h. allocate_if_used_lem mmap k i t ∙ step_lem mmap pageing t i k h)
      (ground arith)
