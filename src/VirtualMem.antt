-- ===== src/VirtualMem.antt =====
-- The page table and the swap file of Practicum/virtualmem.c. Physical memory is its frames, the swap
-- file its pages, of 4096 bytes each. Whether a page can be read from the swap file is the parameter
-- `reads`. As in the code, no function tests its page number.
pub mod Frames
pub mod Tests
use computersystems_monorepo.Prelude.{
  ℕ, ◌-◌, ◌^◌, Bool, true, false, ◌&&◌, ◌==◌, if◌then◌else◌, update, Option, none, some, find_from,
}

abbrev pub num_pages : ℕ
num_pages = 1024

-- `-1` in the page table.
abbrev pub absent : ℕ
absent = 2 ^ 32 - 1

abbrev pub Buffer : Type 0
Buffer = ℕ → ℕ

pub record Memory : Type 0 where
  pub page_table : ℕ → ℕ
  pub frames : ℕ → Buffer
  pub swap : ℕ → Buffer

-- `exit` is the call of `exit(1)`.
pub data Outcome (A : Type 0) : Type 0 where
  ok : A → Outcome A
  exit : Outcome A

-- `malloc` gives the frames as they were, or NULL; `open` and `ftruncate` work or fail.
unfoldable pub init_virtual_memory :
    (malloc : Option (ℕ → Buffer)) → (opened resized : Bool) → (swap : ℕ → Buffer) → Outcome Memory
init_virtual_memory none opened resized swap = exit
init_virtual_memory (some frames) opened resized swap =
    if opened && resized
    then ok (record { page_table = λ _. absent; frames = frames; swap = swap })
    else exit

unfoldable pub read_page : (reads : ℕ → Bool) → (page_num : ℕ) → Memory → Outcome Buffer
read_page reads page_num s =
    let frame = s.page_table page_num in
    if frame == absent
    then (if reads page_num then ok (s.swap page_num) else exit)
    else ok (s.frames frame)

-- `write_page` for a page that is not in memory. The search for a free frame looks for a page that has
-- no frame, and takes its number.
unfoldable pub load_and_write :
    (reads : ℕ → Bool) → (page_num : ℕ) → Buffer → Option ℕ → Memory → Outcome Memory
load_and_write reads page_num buf none s = exit
load_and_write reads page_num buf (some free_frame) s =
    if reads page_num
    then (let loaded = update s.frames free_frame (s.swap page_num) in
        ok (record s {
          page_table = update s.page_table page_num free_frame;
          frames = update loaded free_frame buf;
        }))
    else exit

unfoldable pub write_page : (reads : ℕ → Bool) → (page_num : ℕ) → Buffer → Memory → Outcome Memory
write_page reads page_num buf s =
    let frame = s.page_table page_num in
    if frame == absent
    then load_and_write reads page_num buf (find_from s.page_table absent 0 num_pages) s
    else ok (record s { frames = update s.frames frame buf })
