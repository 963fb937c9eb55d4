-- ===== src/VmHeap/Tests.antt =====
-- Small heaps, and the theorems at them.
use computersystems_monorepo.Prelude.{◌+◌, ◌≡◌, refl, true, none, some}
use computersystems_monorepo.VmHeap.{Os, page_of}

abbrev os : Os
os = record {
  phys_mem = 4096;
  area = some 65536;
  page = λ i. some (i + 90000);
  saves = λ _. true;
  has_room = true;
  loads = λ _. none;
}

-- The second page of phys_mem has number 16384.
second_page : page_of os (4096 + 1024) ≡ 16384
second_page = refl
