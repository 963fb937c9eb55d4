-- ===== src/TestClient/Put.antt =====
-- What PUT sends.
use computersystems_monorepo.Prelude.{
  ℕ, zero, suc, ◌+◌, ◌-◌, ◌≡◌, ◌∙◌, refl, arith, true, Bool-cases, inl, inr, ltb, eq→==, Option,
  none, some, [], ◌∷◌, ◌++◌, length, take,
}
use computersystems_monorepo.Posix.{Bytes, Action, pure, Os, Trace, recv, send, is_negative}
use computersystems_monorepo.CText.{codes}
use computersystems_monorepo.Client.{Received, all, failed, out_of_fuel}
use computersystems_monorepo.Server.Sends.{handed_over}
use computersystems_monorepo.TestServer.{bufsiz}
use computersystems_monorepo.TestClient.{recv_file, save_file, save_to, exchange, put_command}

-- An action that sends nothing.
abbrev SendsNothing : {A : Type 0} → (sock : ℕ) → Action A → Type 0
SendsNothing sock m = (os : Os) (h : Trace) → handed_over sock (m os h).1 ≡ handed_over sock h

-- The loop behind one call of `recv`.
abbrev behind_recv : (fuel socket_desc : ℕ) (got bytes : Bytes) → Action Received
behind_recv fuel socket_desc got [] = pure (all got)
behind_recv fuel socket_desc got (c ∷ cs) = recv_file fuel socket_desc (got ++ c ∷ cs)

behind_recv-SendsNothing :
    (sock fuel socket_desc : ℕ) (got bytes : Bytes)
    → ((more : Bytes) → SendsNothing sock (recv_file fuel socket_desc more))
    → SendsNothing sock (behind_recv fuel socket_desc got bytes)
behind_recv-SendsNothing sock fuel socket_desc got [] rest os h = refl
behind_recv-SendsNothing sock fuel socket_desc got (c ∷ cs) rest os h = rest (got ++ c ∷ cs) os h

recv_file-SendsNothing :
    (sock fuel socket_desc : ℕ) (got : Bytes) → SendsNothing sock (recv_file fuel socket_desc got)
unfolding recv_file
recv_file-SendsNothing sock zero socket_desc got os h = refl
recv_file-SendsNothing sock (suc fuel) socket_desc got os h =
    let call = recv socket_desc (bufsiz - length got) in
    let a = os h call in
    let bytes = take (bufsiz - length got) a.bytes in
    ground (
      arith,
      behind_recv-SendsNothing sock fuel socket_desc got bytes
          (recv_file-SendsNothing sock fuel socket_desc) os ((call, a) ∷ h),
    )

save_file-SendsNothing :
    (sock : ℕ) (path file_data : Bytes) → SendsNothing sock (save_file path file_data)
unfolding save_file
save_file-SendsNothing sock path file_data os h = ground arith

save_to-SendsNothing :
    (sock : ℕ) (path : Option Bytes) (received : Received)
    → SendsNothing sock (save_to path received)
unfolding save_to
save_to-SendsNothing sock path failed os h = refl
save_to-SendsNothing sock path out_of_fuel os h = refl
save_to-SendsNothing sock none (all bytes) os h = refl
save_to-SendsNothing sock (some path) (all bytes) os h = save_file-SendsNothing sock path _ os h

exchange-sends :
    (sock : ℕ) (request : Bytes) (path : Option Bytes) (os : Os) (h : Trace)
    → ltb (length request) bufsiz ≡ true
    → handed_over sock (exchange sock request path os h).1 ≡ handed_over sock h ++ request
unfolding exchange
exchange-sends sock request path os h fits =
    let h₁ = (send sock request, os h (send sock request)) ∷ h in
    let received = recv_file (bufsiz + 1) sock [] os h₁ in
    let sent : handed_over sock h₁ ≡ handed_over sock h ++ request =
      rw (eq→== sock sock refl) refl in
    elim (Bool-cases (is_negative (os h (send sock request)).code)) [
      | inl not_sent ↦ rw (fits, not_sent, exchange) sent
      | inr works ↦
          rw (fits, works, exchange)
            (save_to-SendsNothing sock path received.0 os received.1
              ∙ recv_file-SendsNothing sock (bufsiz + 1) sock [] os h₁
              ∙ sent)
    ]

-- For every file and every system, PUT hands the text "PUT PUT" to `send`, and nothing of the file: its
-- name and its bytes do not reach the server.
pub put_command-sends :
    (sock : ℕ) (path : Bytes) (os : Os) (h : Trace)
    → handed_over sock (put_command sock path os h).1 ≡ handed_over sock h ++ codes "PUT PUT"
unfolding put_command
put_command-sends sock path os h = exchange-sends sock (codes "PUT PUT") (some path) os h refl
