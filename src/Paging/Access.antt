-- ===== src/Paging/Access.antt =====
-- `access_page` and `load_page` call each other, and neither has a way out.
use computersystems_monorepo.Prelude.{ℕ, zero, suc, ◌≡◌, ap, refl}
use computersystems_monorepo.Paging.{find_lru_page}
use computersystems_monorepo.Paging.Machine.{
  Outcome, out_of_fuel, then_do, Disk, Machine, Place, holds, free_space, no_space, finish_load,
  finish_access, load_at, load_page, access_page,
}

load_at-never :
    (disk : Disk) (access : ℕ → Machine → Outcome Machine) (page_id time : ℕ) (s : Machine)
    (p : Place)
    → ((i : ℕ) (t : Machine) → access i t ≡ out_of_fuel)
    → load_at disk access page_id time s p ≡ out_of_fuel
unfolding load_at
load_at-never disk access page_id time s (holds i) never = never i s
load_at-never disk access page_id time s (free_space i) never =
    ap (λ o. then_do o (finish_load disk page_id time)) (never i _)
load_at-never disk access page_id time s no_space never =
    ap (λ o. then_do o (finish_load disk page_id time)) (never _ _)

-- However deep the calls may be nested, `access_page` does not return, exit or fault: every call makes
-- a call of `load_page`, and that makes one of `access_page`, whatever the table and the disk.
pub access_page-never :
    (disk : Disk) (fuel page_id time : ℕ) (s : Machine)
    → access_page disk fuel page_id time s ≡ out_of_fuel
unfolding access_page load_page
access_page-never disk zero page_id time s = refl
access_page-never disk (suc fuel) page_id time s =
    ap (λ o. then_do o (finish_access disk (find_lru_page s.table) page_id time))
      (load_at-never disk _ page_id time _ _ (λ i t. access_page-never disk fuel i time t))
