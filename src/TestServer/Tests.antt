-- ===== src/TestServer/Tests.antt =====
-- Clients that only ask for RM, and the first request for GET.
use computersystems_monorepo.Prelude.{◌≡◌, refl, arith, true, [], ◌∷◌}
use computersystems_monorepo.Posix.{Bytes, Os, recv, fclose, close, fopen_write}
use computersystems_monorepo.Posix.Sample.{nothing, answer}
use computersystems_monorepo.CText.{codes, zeros}
use computersystems_monorepo.TestServer.{bufsiz, again, take_request, serve}
use computersystems_monorepo.TestServer.Empties.{calls, get_request-empties}
use computersystems_monorepo.TestServer.Removals.{removals_pile}
use computersystems_monorepo.TestServer.Response.{LeavesLong}

abbrev removing : Os
removing h (recv sock n) = answer 4 (codes "RM a")
removing h _ = record (answer 4 []) { info = record nothing { is_regular = true } }

removals_pile_example : LeavesLong 54 (serve 3 [] (zeros bufsiz) (zeros 8196) removing [])
removals_pile_example =
    removals_pile removing (λ h sock n. (codes "a", refl)) [] 3 (zeros bufsiz) (zeros 8196) []

abbrev getting : Os
getting h (recv sock n) = answer 5 (codes "GET a")
getting h _ = answer 6 []

get_request-empties_example :
    let r = take_request [] 4 (zeros bufsiz) (zeros 8196) getting [] in
    ((kept : Bytes) × (r.0 ≡ again kept (zeros 8196)))
    × (calls r.1 ≡ close 4 ∷ fclose 6 ∷ fopen_write (codes "a") ∷ recv 4 bufsiz ∷ [])
get_request-empties_example =
    get_request-empties [] (zeros 8196) 4 getting b'a' [] (omega arith) (omega arith) []
      (omega arith) refl refl (λ e. omega (arith, e))
