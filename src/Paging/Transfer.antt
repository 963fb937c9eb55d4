-- ===== src/Paging/Transfer.antt =====
-- Pages in and out of physical memory, and what a new page table holds.
use mathlib.Core.Path.{fun_ext}
use computersystems_monorepo.Prelude.{
  ℕ, zero, suc, ◌+◌, ◌*◌, ◌^◌, ◌≤◌, ◌<◌, ◌≡◌, refl, ◌∙◌, ap, lt→ltb, ==→eq, arith, ◌&&◌, ltb, leb,
  ◌==◌, if◌then◌else◌, Bool-cases, inl, inr, repeat_from, repeat_from_inv, update,
}
use computersystems_monorepo.Paging.{
  page_size, Page, init_page_table, search_page, is_page_in_memory,
}
use computersystems_monorepo.Paging.Machine.{
  Outcome, ok, exit, fault, Bytes, copy_out, copy_in, is_page_num, is_inside, read_page, write_page,
}

abbrev pub by_page : {A : Type 0} → ℕ → A → Outcome A
by_page p a = if p == 0 then ok a else if ltb p 16 then fault else exit

module _ (p : ℕ) (int : p < 2 ^ 32) where
  numbers : is_page_num p ≡ ltb p 16
  numbers = ground arith

  inside : is_inside p ≡ (p == 0)
  inside = ground arith

  number_cases :
      {A : Type 0} (a b : A)
      → (p ≡ 0 → a ≡ b)
      → (if is_page_num p then if is_inside p then ok a else fault else exit) ≡ by_page p b
  number_cases a b same =
      rw (numbers, inside)
        (elim (Bool-cases (p == 0)) [
          | inl zero_page ↦
              let z = ==→eq p 0 zero_page in
              rw (zero_page, lt→ltb p 16 (omega (arith, z)), same z) refl
          | inr other ↦ rw other refl
        ])

-- For any page number on `int`, `read_page` gives the memory of page 0 and `write_page` puts the buffer
-- there; pages 1 to 15, which both functions accept, are outside of the memory, which has one page;
-- any other number, negative ones included, ends the program.
pub read_write_page :
    (p : ℕ) (buf memory : Bytes)
    → p < 2 ^ 32
    → (read_page p memory ≡ by_page p memory)
      × (write_page p buf memory ≡ by_page p (λ a. if ltb a page_size then buf a else memory a))
unfolding read_page write_page copy_in copy_out
read_write_page p buf memory int = (
  number_cases p int (λ i. memory (p * page_size + i)) memory
      (λ z. rw z (fun_ext λ i. ap memory (omega arith))),
  number_cases p int _ _ (λ z. rw z (fun_ext λ a. ground arith)),
)

search_page-range :
    (pages : ℕ → Page) (p i n : ℕ)
    → ((k : ℕ) → i ≤ k → k < i + n → ((pages k).id ≡ k) × ((pages k).last_access_time ≡ 0))
    → search_page pages p i n ≡ (leb i p && ltb p (i + n))
unfolding search_page
search_page-range pages p i zero all = ground arith
search_page-range pages p i (suc n) all =
    let (id, time) = all i (omega arith) (omega arith) in
    let rest = search_page-range pages p (i + 1) n (λ k lo hi. all k (omega arith) (omega arith)) in
    rw (id, time, rest) (ground arith)

abbrev fill : ℕ → (ℕ → Page) → ℕ → Page
fill i ps = update ps i (record (ps i) { id = i; last_access_time = 0 })

filled :
    (pages : ℕ → Page) (n k : ℕ)
    → k < n
    → ((repeat_from fill 0 n pages k).id ≡ k)
      × ((repeat_from fill 0 n pages k).last_access_time ≡ 0)
filled pages n k lt =
    repeat_from_inv (λ j ps. (i : ℕ) → i < j → ((ps i).id ≡ i) × ((ps i).last_access_time ≡ 0)) fill
      0 n n pages (omega arith)
      (λ j ps lo hi h i below. elim (Bool-cases (j == i)) [
        | inl here ↦ rw here (==→eq j i here, refl)
        | inr other ↦ rw other (h i (ground arith))
      ])
      (λ i below. absurd (omega arith)) k lt

-- A new page table of `n` pages holds the pages below `n`, whatever memory it was put into.
pub init_page_table-is_page_in_memory :
    (pages : ℕ → Page) (n p : ℕ) → is_page_in_memory (init_page_table pages n) p ≡ ltb p n
unfolding is_page_in_memory init_page_table
init_page_table-is_page_in_memory pages n p =
    search_page-range (repeat_from fill 0 n pages) p 0 n (λ k lo hi. filled pages n k (omega arith))
    ∙ ground arith
