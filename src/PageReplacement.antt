-- ===== src/PageReplacement.antt =====
-- First-in first-out page replacement, Practicum/pagereplacement.c. Page numbers are `int`s.
pub mod Fifo
pub mod Tests
use computersystems_monorepo.Prelude.{
  ℕ, ◌+◌, ◌-◌, ◌%◌, ◌^◌, Option, none, some, List, [], ◌∷◌, update, find_from,
}

abbrev pub max_frames : ℕ
max_frames = 3

-- `-1`, no page.
abbrev pub no_page : ℕ
no_page = 2 ^ 32 - 1

-- The locals of `main`.
pub record State : Type 0 where
  pub page_table : ℕ → ℕ
  pub num_faults : ℕ
  pub oldest_page_index : ℕ

unfoldable pub start : (page_table : ℕ → ℕ) → State
start page_table = record {
  page_table = update (update (update page_table 0 no_page) 1 no_page) 2 no_page;
  num_faults = 0;
  oldest_page_index = 0;
}

-- The oldest page gives way to a new one.
unfoldable pub replace : (page_num : ℕ) → State → State
replace page_num s = record {
  page_table = update s.page_table s.oldest_page_index page_num;
  num_faults = s.num_faults + 1;
  oldest_page_index = (s.oldest_page_index + 1) % max_frames;
}

unfoldable pub reference : (page_num : ℕ) → State → State
reference page_num s = elim (find_from s.page_table page_num 0 max_frames) [
  | some page_index ↦ s
  | none ↦ replace page_num s
]

-- The loop over the reference string.
unfoldable pub run : List ℕ → State → State
run [] s = s
run (page_num ∷ rest) s = run rest (reference page_num s)

abbrev pub reference_string : List ℕ
reference_string = 1 ∷ 2 ∷ 3 ∷ 4 ∷ 1 ∷ 2 ∷ 5 ∷ 1 ∷ 2 ∷ 3 ∷ 4 ∷ 5 ∷ []
