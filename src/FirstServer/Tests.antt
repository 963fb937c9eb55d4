-- ===== src/FirstServer/Tests.antt =====
-- The loop of main at a system that answers each `recv` with a request for INFO.
use computersystems_monorepo.Prelude.{true, []}
use computersystems_monorepo.Posix.{Os, recv}
use computersystems_monorepo.Posix.Sample.{answer}
use computersystems_monorepo.CText.{codes}
use computersystems_monorepo.EarlyServer.{run_main as later_main}
use computersystems_monorepo.FirstServer.{run_main}
use computersystems_monorepo.FirstServer.Later.{GoesAlike, run_main-alike}

abbrev os : Os
os h (recv sock n) = answer 6 (codes "INFO a")
os h _ = answer 4 []

run_main-alike_example : GoesAlike (run_main true 2 os []) (later_main true 2 [] os [])
run_main-alike_example = run_main-alike [] os 2 []
