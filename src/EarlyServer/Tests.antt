-- ===== src/EarlyServer/Tests.antt =====
-- The loop of main at a system that answers each call with 0, and each `recv` with a request.
use computersystems_monorepo.Prelude.{true, []}
use computersystems_monorepo.Posix.{Os, recv}
use computersystems_monorepo.Posix.Sample.{answer}
use computersystems_monorepo.CText.{codes}
use computersystems_monorepo.Server.Waiting.{LeavesOpen}
use computersystems_monorepo.EarlyServer.{run_main}
use computersystems_monorepo.EarlyServer.Leaks.{run_main-LeavesOpen}

abbrev os : Os
os h (recv sock n) = answer 6 (codes "INFO a")
os h _ = answer 4 []

run_main-LeavesOpen_example : LeavesOpen 4 [] (run_main true 2 [] os [])
run_main-LeavesOpen_example = run_main-LeavesOpen 4 os [] 2 []
