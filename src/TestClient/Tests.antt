-- ===== src/TestClient/Tests.antt =====
-- PUT at a system that answers each call with 4.
use computersystems_monorepo.Prelude.{◌≡◌, [], ◌++◌}
use computersystems_monorepo.Posix.{Os}
use computersystems_monorepo.Posix.Sample.{answer}
use computersystems_monorepo.CText.{codes}
use computersystems_monorepo.Server.Sends.{handed_over}
use computersystems_monorepo.TestClient.{put_command}
use computersystems_monorepo.TestClient.Put.{put_command-sends}

abbrev os : Os
os h c = answer 4 []

put_command-sends_example :
    handed_over 4 (put_command 4 (codes "a") os []).1 ≡ handed_over 4 [] ++ codes "PUT PUT"
put_command-sends_example = put_command-sends 4 (codes "a") os []
