-- ===== src/VirtualMem/Tests.antt =====
-- Small memories, and the theorems at them.
use computersystems_monorepo.Prelude.{◌≡◌, refl, true, false, some}
use computersystems_monorepo.VirtualMem.{absent, Memory, ok, exit, init_virtual_memory}

abbrev new : Memory
new = record { page_table = λ _. absent; frames = λ _ _. 5; swap = λ _ _. 0 }

started : init_virtual_memory (some (λ _ _. 5)) true true (λ _ _. 0) ≡ ok new
unfolding init_virtual_memory
started = refl

-- The swap file cannot be opened.
not_started : init_virtual_memory (some (λ _ _. 5)) false true (λ _ _. 0) ≡ exit
unfolding init_virtual_memory
not_started = refl
