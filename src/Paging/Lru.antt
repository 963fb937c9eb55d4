-- ===== src/Paging/Lru.antt =====
-- `find_lru_page` finds the first page of the least access time.
use computersystems_monorepo.Prelude.{
  ℕ, ◌+◌, ◌-◌, ◌<◌, ◌≡◌, sym, subst, ==→eq, refl, arith, true, false, Bool-cases, inl, inr,
  repeat_from_inv, ◌==◌,
}
use computersystems_monorepo.Paging.{slt, Page, PageTable, older, find_lru_page}

-- Place `m` is the first of the least access time among the places below `n`.
abbrev pub IsFirstOldest : (ℕ → Page) → (n m : ℕ) → Type 0
IsFirstOldest pages n m =
    (m < n)
    × ((i : ℕ) → i < n → slt (pages i).last_access_time (pages m).last_access_time ≡ false)
    × ((i : ℕ) → i < m → slt (pages m).last_access_time (pages i).last_access_time ≡ true)

pub slt_below :
    (a b c : ℕ) → slt a b ≡ true → slt c b ≡ false → (slt a c ≡ true) × (slt c a ≡ false)
slt_below a b c less more = (ground arith, ground arith)

pub slt_same : (a : ℕ) → slt a a ≡ false
slt_same a = ground arith

abbrev pub time : (ℕ → Page) → ℕ → ℕ
time pages i = (pages i).last_access_time

module _ (pages : ℕ → Page) (n m : ℕ) where
  older-new : slt (time pages n) (time pages m) ≡ true → older pages n m ≡ n
  older-new e = rw e refl

  older-old : slt (time pages n) (time pages m) ≡ false → older pages n m ≡ m
  older-old e = rw e refl

  pub new-IsFirstOldest :
      IsFirstOldest pages n m
      → slt (time pages n) (time pages m) ≡ true
      → IsFirstOldest pages (n + 1) n
  new-IsFirstOldest (below, least, first) less = (
    omega arith,
    λ i hi. elim (Bool-cases (i == n)) [
      | inl last ↦ let here = ==→eq i n last in rw here (slt_same (time pages n))
      | inr before ↦
          (slt_below (time pages n) (time pages m) (time pages i) less (least i (ground arith))).1
    ],
    λ i hi. (slt_below (time pages n) (time pages m) (time pages i) less (least i hi)).0,
  )

  pub old-IsFirstOldest :
      IsFirstOldest pages n m
      → slt (time pages n) (time pages m) ≡ false
      → IsFirstOldest pages (n + 1) m
  old-IsFirstOldest (below, least, first) more = (
    omega arith,
    λ i hi. elim (Bool-cases (i == n)) [
      | inl last ↦ let here = ==→eq i n last in rw here more
      | inr before ↦ least i (ground arith)
    ],
    first,
  )

  older-IsFirstOldest : IsFirstOldest pages n m → IsFirstOldest pages (n + 1) (older pages n m)
  older-IsFirstOldest h = elim (Bool-cases (slt (time pages n) (time pages m))) [
    | inl less ↦
        subst (IsFirstOldest pages (n + 1)) (sym (older-new less)) (new-IsFirstOldest h less)
    | inr more ↦
        subst (IsFirstOldest pages (n + 1)) (sym (older-old more)) (old-IsFirstOldest h more)
  ]

-- In a table that is not empty, `find_lru_page` returns a place of the table whose access time no
-- other place undercuts, and the first such place.
pub find_lru_page_lem : (t : PageTable) → 0 < t.num → IsFirstOldest t.pages t.num (find_lru_page t)
unfolding find_lru_page
find_lru_page_lem t some_page =
    repeat_from_inv (IsFirstOldest t.pages) (older t.pages) 1 (t.num - 1) t.num 0 (omega arith)
      (λ n m lo hi h. older-IsFirstOldest t.pages n m h)
      (
        omega arith,
        λ i hi. let first : i ≡ 0 = omega arith in rw first (slt_same (t.pages 0).last_access_time),
        λ i hi. absurd (omega arith),
      )
