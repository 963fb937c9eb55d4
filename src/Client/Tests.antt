-- ===== src/Client/Tests.antt =====
-- The theorems about the client at a system that answers every call.
use computersystems_monorepo.Prelude.{◌≡◌, refl, arith, [], ◌∷◌, length}
use computersystems_monorepo.Posix.{Answer, Os, Trace, recv, send, fwrite, fopen_write}
use computersystems_monorepo.Posix.Sample.{answer}
use computersystems_monorepo.CText.{codes}
use computersystems_monorepo.Server.Copies.{written}
use computersystems_monorepo.Client
use computersystems_monorepo.Client.{buffer_size, End, exits, request_text, recv_file, exchange}
use computersystems_monorepo.Client.Stored.{Stores, exchange-Stores}

-- The server sends "hello" once, and then closes.
abbrev came_once : Trace → Answer
came_once ((recv sock n, a) ∷ h) = answer 0 []
came_once h = answer 5 (codes "hello")

abbrev os : Os
os h (recv sock n) = came_once h
os h (fwrite stream bytes) = answer (length bytes) []
os h (send sock bytes) = answer (length bytes) []
os h (fopen_write path) = answer 9 []
os h _ = answer 0 []

exchange-Stores_example :
    Stores 4 (codes "in") (λ stream. []) (λ s. []) (exchange 4 (codes "in") os [])
exchange-Stores_example =
    exchange-Stores 4 (codes "in") os (λ h stream bytes. omega arith) [] (omega arith)

-- The run of the example stores "hello" without its "h".
stored : written 9 (exchange 4 (codes "in") os []).1 ≡ 0 ∷ codes "ello"
unfolding exchange recv_file Client.save_received Client.save_file
stored = refl
