-- ===== src/EarlyClient/Tests.antt =====
-- GET and PUT at systems that answer every call.
use computersystems_monorepo.Prelude.{◌≡◌, refl, arith, [], ◌++◌}
use computersystems_monorepo.Posix.{Bytes, Os, recv, fopen_read}
use computersystems_monorepo.Posix.Sample.{answer}
use computersystems_monorepo.CText.{codes, zeros}
use computersystems_monorepo.Server.{buffer_size}
use computersystems_monorepo.Server.Dispatch.{again, take_request}
use computersystems_monorepo.Server.Sends.{handed_over}
use computersystems_monorepo.EarlyClient.Asks.{get_request-serves}

-- The server's system: the request is "GET ab", and the file holds "hello".
abbrev server_os : Os
server_os h (recv sock n) = answer 6 (codes "GET ab")
server_os h (fopen_read path) = answer 9 (codes "hello")
server_os h _ = answer 0 []

abbrev served : Bytes
served = handed_over 4 (take_request [] 4 (zeros buffer_size) server_os []).1

get_request-serves_example :
    ((left : Bytes) × ((take_request [] 4 (zeros buffer_size) server_os []).0 ≡ again left))
    × (served ≡ [] ++ codes "hello")
get_request-serves_example =
    get_request-serves [] 4 server_os b'a' (codes "b") (ground arith) (ground arith) []
      (λ h sock bytes. refl) (omega arith) refl refl (ground arith)
