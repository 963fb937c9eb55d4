-- ===== src/Paging.antt =====
-- The paging half of PracticumI/malloc.c: page flags, the page table and its replacement, and the swap
-- file. An `int` is its 32 bits, compared as signed. Whether a call of `pread` or `pwrite` at a place
-- moves a whole page is the parameter `Disk`.
pub mod Flags
pub mod Lru
pub mod Machine
pub mod Replace
pub mod Access
pub mod Tests
pub mod Transfer
use computersystems_monorepo.Prelude.{
  ℕ, zero, suc, ◌+◌, ◌-◌, ◌*◌, ◌%◌, ◌^◌, Bool, true, false, not, ◌&&◌, ◌||◌, ltb, leb, ◌==◌,
  if◌then◌else◌, update, Option, none, some, List, [], ◌∷◌, repeat_from, bit_and, bit_or,
}

abbrev pub used_bit : ℕ
used_bit = 128

abbrev pub dirty_bit : ℕ
dirty_bit = 64

abbrev pub page_size : ℕ
page_size = 4096

abbrev pub num_pages : ℕ
num_pages = 16

-- `a < b` on `int`.
abbrev pub slt : ℕ → ℕ → Bool
slt a b = ltb ((a + 2 ^ 31) % 2 ^ 32) ((b + 2 ^ 31) % 2 ^ 32)

abbrev pub int_max : ℕ
int_max = 2 ^ 31 - 1

abbrev pub minus_one : ℕ
minus_one = 2 ^ 32 - 1

pub record Page : Type 0 where
  pub id : ℕ
  pub last_access_time : ℕ
  pub resident : Bool
  pub disk_location : ℕ

pub record PageTable : Type 0 where
  pub pages : ℕ → Page
  pub num : ℕ

-- The global array `pageing`.
abbrev pub Statuses : Type 0
Statuses = ℕ → ℕ

abbrev pub is_page_used : ℕ → Statuses → Bool
is_page_used page_num pageing = not (bit_and (pageing page_num) used_bit == 0)

abbrev pub is_page_dirty : ℕ → Statuses → Bool
is_page_dirty page_num pageing = not (bit_and (pageing page_num) dirty_bit == 0)

-- `|= BIT` and `&= ~BIT` on a byte.
unfoldable pub set_bit : (bit page_num : ℕ) → Bool → Statuses → Statuses
set_bit bit page_num true pageing = update pageing page_num (bit_or (pageing page_num) bit)
set_bit bit page_num false pageing =
    update pageing page_num (bit_and (pageing page_num) (255 - bit))

unfoldable pub set_page_used : ℕ → Bool → Statuses → Statuses
set_page_used page_num used pageing = set_bit used_bit page_num used pageing

unfoldable pub set_page_dirty : ℕ → Bool → Statuses → Statuses
set_page_dirty page_num dirty pageing = set_bit dirty_bit page_num dirty pageing

-- The loop of `init_page_table`, on the array that `pm_malloc_lock` returned.
unfoldable pub init_page_table : (pages : ℕ → Page) → (n : ℕ) → PageTable
init_page_table pages n = record {
  pages =
      repeat_from (λ i ps. update ps i (record (ps i) { id = i; last_access_time = 0 })) 0 n pages;
  num = n;
}

abbrev pub older : (ℕ → Page) → (i lru_page : ℕ) → ℕ
older pages i lru_page =
    if slt (pages i).last_access_time (pages lru_page).last_access_time then i else lru_page

unfoldable pub find_lru_page : PageTable → ℕ
find_lru_page t = repeat_from (older t.pages) 1 (t.num - 1) 0

-- The linear search of `is_page_in_memory` from place `i` on.
unfoldable pub search_page : (ℕ → Page) → (page_id i n : ℕ) → Bool
search_page pages page_id i zero = false
search_page pages page_id i (suc n) =
    let rest = search_page pages page_id (i + 1) n in
    if ((pages i).id == page_id) && not ((pages i).last_access_time == minus_one)
    then true
    else rest

unfoldable pub is_page_in_memory : PageTable → ℕ → Bool
is_page_in_memory t page_id = search_page t.pages page_id 0 t.num

-- `evicted_page_id` and `oldest_access_time`.
pub record Victim : Type 0 where
  pub evicted_page_id : ℕ
  pub oldest_access_time : ℕ

abbrev pub evict_step : (ℕ → Page) → ℕ → Victim → Victim
evict_step pages i v =
    if slt (pages i).last_access_time v.oldest_access_time
    then record { evicted_page_id = (pages i).id; oldest_access_time = (pages i).last_access_time }
    else v

unfoldable pub find_victim : PageTable → Victim
find_victim t =
    repeat_from (evict_step t.pages) 0 t.num
      (record { evicted_page_id = minus_one; oldest_access_time = int_max })

-- The second loop of `replace_page`: the first place with the evicted id is given to the new page.
unfoldable pub rename_page : (old new now i n : ℕ) → (ℕ → Page) → ℕ → Page
rename_page old new now i zero pages = pages
rename_page old new now i (suc n) pages =
    let rest = rename_page old new now (i + 1) n pages in
    if (pages i).id == old
    then update pages i (record (pages i) { id = new; last_access_time = now })
    else rest

-- `replace_page` at time `now`: the new table, and the page number that it writes to the swap file
-- and returns.
unfoldable pub replace_page : (page_id now : ℕ) → PageTable → PageTable × ℕ
replace_page page_id now t =
    let old = (find_victim t).evicted_page_id in
    (record t { pages = rename_page old page_id now 0 t.num t.pages }, old)
