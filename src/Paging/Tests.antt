-- ===== src/Paging/Tests.antt =====
-- Small page tables, and the theorems at them.
use computersystems_monorepo.Prelude.{
  ℕ, ◌+◌, ◌*◌, ◌%◌, ◌≡◌, refl, arith, true, false, update, ltb, ◌==◌, if◌then◌else◌, repeat_from,
}
use computersystems_monorepo.Paging.{Page, PageTable, slt, minus_one, find_lru_page, replace_page}
use computersystems_monorepo.Paging.Machine.{out_of_fuel, Disk, Machine, access_page}
use computersystems_monorepo.Paging.Lru.{IsFirstOldest, find_lru_page_lem}
use computersystems_monorepo.Paging.Replace.{replace_page_lem}
use computersystems_monorepo.Paging.Access.{access_page-never}

-- Pages 0, 1, 2, ... with access times 9, 4, 4, and later ones.
abbrev page : ℕ → Page
page i = record {
  id = i;
  last_access_time = if i == 0 then 9 else if ltb i 3 then 4 else i + 10;
  resident = false;
  disk_location = i * 4096;
}

abbrev table : PageTable
table = record { pages = page; num = 5 }

abbrev disk : Disk
disk = record { reads = λ _. true; writes = λ _. true }

abbrev machine : Machine
machine = record { table = table; pageing = λ _. 0; memory = λ _. 0; swap = λ i. i % 256 }

-- The first of the two pages with time 4.
lru_page : find_lru_page table ≡ 1
unfolding find_lru_page repeat_from
lru_page = refl

-- A negative time is older.
negative : slt minus_one 0 ≡ true
negative = refl

access_page-never_example : access_page disk 100 3 7 machine ≡ out_of_fuel
access_page-never_example = access_page-never disk 100 3 7 machine

find_lru_page_example : IsFirstOldest page 5 (find_lru_page table)
find_lru_page_example = find_lru_page_lem table (omega arith)

replace_page_example :
    ((replace_page 12 20 table).1 ≡ (page (find_lru_page table)).id)
    × ((replace_page 12 20 table).0.pages
        ≡ update page
            (find_lru_page table)
            (record (page (find_lru_page table)) { id = 12; last_access_time = 20 }))
replace_page_example =
    replace_page_lem 12 20 0 table (omega arith) refl (λ a b lt bound e. omega arith)
