-- ===== src/SharedData/Tests.antt =====
-- The value that one thread's store leaves where all have loaded before.
use computersystems_monorepo.Prelude.{◌≤◌, ◌↔◌}
use computersystems_monorepo.SharedData.Runs.{Leaves, counter_values}

counter_values_example : Leaves 1 ↔ ((1 ≤ 1) × (1 ≤ 4))
counter_values_example = counter_values 1
