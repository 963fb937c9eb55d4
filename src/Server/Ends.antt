-- ===== src/Server/Ends.antt =====
-- How the thread for a client ends.
use computersystems_monorepo.Prelude.{
  ℕ, zero, suc, ◌+◌, ◌-◌, ◌≡◌, ◌≢◌, refl, arith, min, Option, none, some, [], ◌∷◌, ◌++◌, length,
  take, drop, Option-cases, inl, inr, subst,
}
use computersystems_monorepo.Posix.{Bytes, Os, Trace, open_read, fopen_read, recv, send, read}
use computersystems_monorepo.CText.{codes, overwrite, c_string}
use computersystems_monorepo.Server.Dispatch.{request_of}
use computersystems_monorepo.Server.{buffer_size, Run, done, fault, out_of_fuel}
use computersystems_monorepo.Server.Handler.{
  hang_up, recv_all, send_all, send_devices, get_devices, handle_command, with_tokens, handle_text,
  handle_message, handle_received, client_handler,
}
use computersystems_monorepo.Server.Sockets.{
  closes, Keeps, perform_info_command-Keeps, perform_put_command-Keeps,
}

-- Where the call returns, it has closed the descriptor once.
abbrev ClosesOnceFrom : (fd count : ℕ) → Run (Unit {0}) × Trace → Type 0
ClosesOnceFrom fd count (done _, h') = closes fd h' ≡ suc count
ClosesOnceFrom fd count (fault, h') = Unit {0}
ClosesOnceFrom fd count (out_of_fuel, h') = Unit {0}

abbrev pub ClosesOnce : (fd : ℕ) → Trace → Run (Unit {0}) × Trace → Type 0
ClosesOnce fd h = ClosesOnceFrom fd (closes fd h)

-- The descriptor of a socket that is open is not given out for a file.
abbrev pub IsTaken : (fd : ℕ) → Os → Type 0
IsTaken fd os = (h : Trace) (path : Bytes) → (os h (open_read path)).code ≢ fd

module _ (fd : ℕ) where
  recv_all-Keeps : (fuel sock : ℕ) (got : Bytes) → Keeps fd (recv_all fuel sock got)
  unfolding recv_all
  recv_all-Keeps zero sock got os h = refl
  recv_all-Keeps (suc fuel) sock got os h =
      let n = buffer_size - length got in
      let a = os h (recv sock n) in
      ground (arith, recv_all-Keeps fuel sock (got ++ take n a.bytes) os ((recv sock n, a) ∷ h))

  send_all-Keeps : (fuel sock : ℕ) (pending : Bytes) → Keeps fd (send_all fuel sock pending)
  unfolding send_all
  send_all-Keeps zero sock [] os h = refl
  send_all-Keeps zero sock (c ∷ cs) os h = refl
  send_all-Keeps (suc fuel) sock [] os h = refl
  send_all-Keeps (suc fuel) sock (c ∷ cs) os h =
      let a = os h (send sock (c ∷ cs)) in
      ground (
        arith,
        send_all-Keeps fuel sock (drop (min a.code (length (c ∷ cs))) (c ∷ cs)) os
            ((send sock (c ∷ cs), a) ∷ h),
      )

module _ (sock : ℕ) (os : Os) where
  send_devices-ClosesOnce :
      (fuel fd1 fd2 : ℕ) (message : Bytes) (h : Trace)
      → fd1 ≢ sock
      → fd2 ≢ sock
      → ClosesOnce sock h (send_devices fuel fd1 fd2 sock message os h)
  unfolding send_devices
  send_devices-ClosesOnce fuel fd1 fd2 message h ne1 ne2 = grind (arith, send_all-Keeps)

  get_devices-ClosesOnce :
      (fuel : ℕ) (message path : Bytes) (h : Trace)
      → IsTaken sock os
      → ClosesOnce sock h (get_devices fuel sock message path os h)
  unfolding get_devices
  get_devices-ClosesOnce fuel message path h busy =
      let one = open_read (codes "/dev/sdb1") in
      let h₁ = (one, os h one) ∷ h in
      let two = open_read (codes "/dev/sdc1") in
      let h₂ = (two, os h₁ two) ∷ h₁ in
      let h₃ = (fopen_read path, os h₂ (fopen_read path)) ∷ h₂ in
      ground (
        arith,
        send_devices-ClosesOnce fuel (os h one).code (os h₁ two).code message h₃
            (busy h (codes "/dev/sdb1")) (busy h₁ (codes "/dev/sdc1")),
      )

  handle_command-ClosesOnce :
      (fuel : ℕ) (stack message command remote local : Bytes) (h : Trace)
      → IsTaken sock os
      → ClosesOnce sock h (handle_command fuel stack sock message command remote local os h)
  unfolding handle_command
  handle_command-ClosesOnce fuel stack message command remote local h busy = grind (
    arith,
    perform_put_command-Keeps,
    perform_info_command-Keeps,
    get_devices-ClosesOnce fuel message remote h busy,
  )

  with_tokens-ClosesOnce :
      (fuel : ℕ) (stack message : Bytes) (command remote local : Option Bytes) (h : Trace)
      → IsTaken sock os
      → ClosesOnce sock h (
          with_tokens command remote local
            (hang_up sock)
            (handle_command fuel stack sock message)
            os
            h)
  with_tokens-ClosesOnce fuel stack message (some command) (some remote) (some local) h busy =
      handle_command-ClosesOnce fuel stack message command remote local h busy
  with_tokens-ClosesOnce fuel stack message none remote local h busy = ground arith
  with_tokens-ClosesOnce fuel stack message (some command) none local h busy = ground arith
  with_tokens-ClosesOnce fuel stack message (some command) (some remote) none h busy = ground arith

  handle_text-ClosesOnce :
      (fuel : ℕ) (stack message : Bytes) (h : Trace)
      → IsTaken sock os
      → ClosesOnce sock h (handle_text fuel stack sock message os h)
  unfolding handle_text
  handle_text-ClosesOnce fuel stack message h busy = elim (Option-cases (c_string message)) [
    | inl no_end ↦ rw (no_end, handle_text) tt
    | inr (s, found) ↦
        let r = request_of s in
        rw (found, handle_text)
          (with_tokens-ClosesOnce fuel stack message r.command.token r.remote.token r.local.token h
            busy)
  ]

  handle_message-ClosesOnce :
      (fuel : ℕ) (stack message : Bytes) (h : Trace)
      → IsTaken sock os
      → ClosesOnce sock h (handle_message fuel stack sock message os h)
  unfolding handle_message
  handle_message-ClosesOnce fuel stack message h busy =
      let a = os h (read sock buffer_size) in
      ground (
        arith,
        handle_text-ClosesOnce fuel stack (overwrite (take buffer_size a.bytes) message)
            ((read sock buffer_size, a) ∷ h) busy,
      )

  handle_received-ClosesOnce :
      (fuel : ℕ) (stack : Bytes) (received : Run (Option Bytes)) (h : Trace)
      → IsTaken sock os
      → ClosesOnce sock h (handle_received fuel stack sock received os h)
  unfolding handle_received
  handle_received-ClosesOnce fuel stack (done none) h busy = ground arith
  handle_received-ClosesOnce fuel stack (done (some message)) h busy =
      ground (arith, handle_message-ClosesOnce fuel stack message h busy)
  handle_received-ClosesOnce fuel stack fault h busy = tt
  handle_received-ClosesOnce fuel stack out_of_fuel h busy = tt

-- Where `client_handler` returns, it has closed the socket of its client once, on every path: at an
-- error of `recv`, `read` or `send`, at a message of too few words, and behind every command.
pub client_handler-ClosesOnce :
    (fuel : ℕ) (stack : Bytes) (sock : ℕ) (os : Os) (h : Trace)
    → IsTaken sock os
    → ClosesOnce sock h (client_handler fuel stack sock os h)
unfolding client_handler
client_handler-ClosesOnce fuel stack sock os h busy =
    let (received, h₁) = recv_all (buffer_size + 1) sock [] os h in
    subst (λ n. ClosesOnceFrom sock n (handle_received fuel stack sock received os h₁))
      (recv_all-Keeps sock (buffer_size + 1) sock [] os h)
      (handle_received-ClosesOnce sock os fuel stack received h₁ busy)
