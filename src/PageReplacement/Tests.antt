-- ===== src/PageReplacement/Tests.antt =====
-- The reference string of the program.
use computersystems_monorepo.Prelude.{◌≡◌, refl, arith, find_from}
use computersystems_monorepo.PageReplacement.{
  State, start, replace, reference, run, reference_string,
}
use computersystems_monorepo.PageReplacement.Fifo.{queue_of, refer_all, run-refines}

abbrev new : State
new = start (λ _. 7)

-- 9 faults, and the pages 5, 3 and 4 at the end.
faults : (run reference_string new).num_faults ≡ 9
unfolding run reference replace start find_from
faults = refl

run-refines_example :
    queue_of (run reference_string new) ≡ refer_all reference_string (queue_of new)
unfolding start
run-refines_example = run-refines reference_string new (omega arith)
