-- ===== src/FirstClient/Tests.antt =====
-- The request of PUT at the server.
use computersystems_monorepo.Prelude.{◌≡◌, refl, arith, []}
use computersystems_monorepo.Posix.{Os, recv, minus_one}
use computersystems_monorepo.Posix.Sample.{answer}
use computersystems_monorepo.CText.{codes, zeros}
use computersystems_monorepo.Server.{buffer_size}
use computersystems_monorepo.Server.Dispatch.{exits}
use computersystems_monorepo.FirstServer.{take_request}
use computersystems_monorepo.FirstClient.Asks.{other_request-stops}

abbrev os : Os
os h (recv sock n) = answer 7 (codes "PUT a b")
os h _ = answer 4 []

other_request-stops_example : (take_request 4 (zeros buffer_size) os []).0 ≡ exits minus_one
other_request-stops_example =
    other_request-stops 4 os b'P' (codes "UT") (omega arith) refl refl [] (codes "a") (codes "b")
      (omega arith) (omega arith) refl refl
