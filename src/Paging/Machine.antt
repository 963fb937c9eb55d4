-- ===== src/Paging/Machine.antt =====
-- `read_page`, `write_page`, `access_page` and `load_page`: physical memory and the swap file.
use computersystems_monorepo.Prelude.{
  ℕ, zero, suc, ◌+◌, ◌-◌, ◌*◌, ◌%◌, Bool, true, false, not, ◌&&◌, ltb, leb, ◌==◌, if◌then◌else◌,
  update, Option, none, some,
}
use computersystems_monorepo.Paging.{
  page_size, num_pages, slt, Page, PageTable, Statuses, is_page_used, is_page_dirty, set_page_used,
  find_lru_page,
}

-- `exit` is the call of `exit(1)`, `fault` an access outside of `phys_mem`.
pub data Outcome (A : Type 0) : Type 0 where
  ok : A → Outcome A
  exit : Outcome A
  fault : Outcome A
  out_of_fuel : Outcome A

abbrev pub then_do : {A B : Type 0} → Outcome A → (A → Outcome B) → Outcome B
then_do (ok a) next = next a
then_do exit next = exit
then_do fault next = fault
then_do out_of_fuel next = out_of_fuel

-- The bytes of `phys_mem`, of the swap file or of a buffer, by position.
abbrev pub Bytes : Type 0
Bytes = ℕ → ℕ

-- `phys_mem` has one page.
abbrev pub is_inside : ℕ → Bool
is_inside page_num = leb (page_num * page_size + page_size) page_size

-- `memcpy` of a page out of and into physical memory.
unfoldable pub copy_out : ℕ → Bytes → Outcome Bytes
copy_out page_num memory =
    if is_inside page_num then ok (λ i. memory (page_num * page_size + i)) else fault

unfoldable pub copy_in : ℕ → Bytes → Bytes → Outcome Bytes
copy_in page_num buf memory =
    if is_inside page_num
    then ok (λ a.
      if leb (page_num * page_size) a && ltb a (page_num * page_size + page_size)
      then buf (a - page_num * page_size)
      else memory a)
    else fault

abbrev pub is_page_num : ℕ → Bool
is_page_num page_num = not (slt page_num 0) && slt page_num num_pages

unfoldable pub read_page : ℕ → Bytes → Outcome Bytes
read_page page_num memory = if is_page_num page_num then copy_out page_num memory else exit

unfoldable pub write_page : ℕ → Bytes → Bytes → Outcome Bytes
write_page page_num buf memory = if is_page_num page_num then copy_in page_num buf memory else exit

-- Whether `pread` and `pwrite` at a location of the swap file move a whole page.
pub record Disk : Type 0 where
  pub reads : ℕ → Bool
  pub writes : ℕ → Bool

pub record Machine : Type 0 where
  pub table : PageTable
  pub pageing : Statuses
  pub memory : Bytes
  pub swap : Bytes

abbrev pub set_page : ℕ → Page → PageTable → PageTable
set_page i p t = record t { pages = update t.pages i p }

-- The assignment `page_table->pages[page_id].last_access_time = current_time`.
abbrev pub touch : ℕ → ℕ → PageTable → PageTable
touch page_id time t = set_page page_id (record (t.pages page_id) { last_access_time = time }) t

-- The first page below 16 that is not in use, from `i` on.
unfoldable pub find_unused : (i n : ℕ) → Statuses → Option ℕ
find_unused i zero pageing = none
find_unused i (suc n) pageing =
    let rest = find_unused (i + 1) n pageing in
    if not (is_page_used i pageing) then some i else rest

-- A dirty page is written to its place in the swap file.
unfoldable pub swap_out : Disk → (lru : ℕ) → Machine → Outcome Machine
swap_out disk lru s =
    let loc = (s.table.pages lru).disk_location in
    if is_page_dirty (lru % 256) s.pageing
    then (if disk.writes loc
        then (then_do (copy_out lru s.memory) λ buf. ok (record s {
          swap = λ a. if leb loc a && ltb a (loc + page_size) then buf (a - loc) else s.swap a;
        }))
        else exit)
    else ok s

-- A page is read from its place in the swap file to page `frame` of memory.
unfoldable pub swap_in : Disk → (page_id frame : ℕ) → Machine → Outcome Machine
swap_in disk page_id frame s =
    let loc = (s.table.pages page_id).disk_location in
    if disk.reads loc
    then (then_do (copy_in frame (λ i. s.swap (loc + i)) s.memory)
        λ memory. ok (record s { memory = memory }))
    else exit

-- The end of `access_page`: the page table is updated, and the swapped page is marked as unused.
unfoldable pub exchange : (lru page_id frame time : ℕ) → Machine → Machine
exchange lru page_id frame time s =
    let t₁ =
      set_page lru
        (record (s.table.pages lru) {
          id = page_id;
          resident = true;
          disk_location = (s.table.pages page_id).disk_location;
        })
        s.table in
    let t₂ =
      set_page page_id
        (record (t₁.pages page_id) { resident = true; id = frame; last_access_time = time }) t₁ in
    record s { table = t₂; pageing = set_page_used (lru % 256) false s.pageing }

-- `access_page` behind its call of `load_page`. The flags take a page number as a byte.
unfoldable pub finish_access : Disk → (lru page_id time : ℕ) → Machine → Outcome Machine
finish_access disk lru page_id time s =
    let s₁ = record s { pageing = set_page_used (page_id % 256) true s.pageing } in
    elim (find_unused 0 num_pages s₁.pageing) [
      | none ↦ exit
      | some frame ↦ then_do (swap_out disk lru s₁) λ s₂.
          let lru_page = record (s₂.table.pages lru) { resident = false } in
          then_do
            (swap_in disk page_id frame (record s₂ { table = set_page lru lru_page s₂.table }))
            λ s₃. ok (exchange lru page_id frame time s₃)
    ]

-- The loop of `load_page`: the place that holds the page, or the last place with access time 0.
pub data Place : Type 0 where
  holds : ℕ → Place
  free_space : ℕ → Place
  no_space : Place

unfoldable pub find_place : (ℕ → Page) → (page_id i n : ℕ) → Place → Place
find_place pages page_id i zero space = space
find_place pages page_id i (suc n) space =
    let space' = if (pages i).last_access_time == 0 then free_space i else space in
    let rest = find_place pages page_id (i + 1) n space' in
    if (pages i).id == page_id then holds i else rest

-- `load_page` behind its call of `access_page`.
unfoldable pub finish_load : Disk → (page_id time : ℕ) → Machine → Outcome Machine
finish_load disk page_id time s =
    let touched = λ (m : Machine). ok (record m { table = touch page_id time m.table }) in
    if (s.table.pages page_id).resident
    then touched s
    else then_do (swap_in disk page_id page_id s) λ m. touched (record m {
      table = set_page page_id (record (m.table.pages page_id) { resident = true }) m.table;
    })

-- `load_page` behind its loop, with `access_page` as an argument: the place is the page to access.
unfoldable pub load_at :
    Disk
    → (access : ℕ → Machine → Outcome Machine) → (page_id time : ℕ) → Machine
    → Place
    → Outcome Machine
load_at disk access page_id time s (holds i) = access i s
load_at disk access page_id time s (free_space i) =
    then_do
      (access i
        (record s { table = set_page i (record (s.table.pages i) { id = page_id }) s.table }))
      (finish_load disk page_id time)
load_at disk access page_id time s no_space =
    let lru = find_lru_page s.table in
    then_do
      (access lru
        (record s { table = set_page lru (record (s.table.pages lru) { id = page_id }) s.table }))
      (finish_load disk page_id time)

unfoldable pub load_page :
    Disk → (access : ℕ → Machine → Outcome Machine) → (page_id time : ℕ) → Machine → Outcome Machine
load_page disk access page_id time s =
    load_at disk access page_id time s (find_place s.table.pages page_id 0 s.table.num no_space)

-- The fuel bounds how deep the calls of `access_page` and `load_page` are nested.
unfoldable pub access_page : Disk → (fuel page_id time : ℕ) → Machine → Outcome Machine
access_page disk zero page_id time s = out_of_fuel
access_page disk (suc fuel) page_id time s =
    let lru = find_lru_page s.table in
    let s₁ = record s { table = touch page_id time s.table } in
    then_do (load_page disk (λ i. access_page disk fuel i time) page_id time s₁)
      (finish_access disk lru page_id time)
