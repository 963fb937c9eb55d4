-- ===== src/Server/Halts.antt =====
-- The thread for a client comes to an end.
use computersystems_monorepo.Prelude.{
  ℕ, zero, suc, ◌+◌, ◌-◌, ◌≤◌, ◌<◌, ◌≡◌, ap, arith, min, Option, none, some, [], ◌∷◌, ◌++◌, length,
  take, drop, length-take, length-drop, length-append, Option-cases, List-cases, inl, inr,
}
use computersystems_monorepo.Posix.{Bytes, Os, Trace, File, read, recv, send, open_read, fopen_read}
use computersystems_monorepo.CText.{codes, overwrite, c_string, Text}
use computersystems_monorepo.Server.{
  buffer_size, Run, done, fault, out_of_fuel, put_response, put_body, put_opened, put_remote,
  perform_put_command,
}
use computersystems_monorepo.Server.Dispatch.{request_of}
use computersystems_monorepo.Server.Handler.{
  half, hang_up, recv_all, send_all, send_devices, get_devices, device_data, handle_command,
  with_tokens, handle_text, handle_message, handle_received, client_handler,
}

-- The fuel was enough.
abbrev pub Halts : {A : Type 0} → Run A × Trace → Type 0
Halts (done a, h) = Unit {0}
Halts (fault, h) = Unit {0}
Halts (out_of_fuel, h) = ⊥

-- The loop of `recv` gives up, or fills the buffer.
abbrev pub Fills : Run (Option Bytes) → Type 0
Fills (done none) = Unit {0}
Fills (done (some bytes)) = length bytes ≡ buffer_size
Fills fault = ⊥
Fills out_of_fuel = ⊥

-- With one call more than the buffer has bytes, the loop of `recv` ends.
pub recv_all-Fills :
    (fuel sock : ℕ) (got : Bytes) (os : Os) (h : Trace)
    → length got ≤ buffer_size
    → buffer_size < length got + fuel
    → Fills (recv_all fuel sock got os h).0
unfolding recv_all
recv_all-Fills zero sock got os h room enough = absurd (omega arith)
recv_all-Fills (suc fuel) sock got os h room enough =
    let n = buffer_size - length got in
    let a = os h (recv sock n) in
    let more = take n a.bytes in
    let h₁ = (recv sock n, a) ∷ h in
    let fits = length-take n a.bytes in
    let longer = length-append got more in
    elim (List-cases more) [
      | inl none_left ↦ ground arith
      | inr (c, cs, some_left) ↦
          let size : length more ≡ suc (length cs) = ap length some_left in
          let rest =
            recv_all-Fills fuel sock (got ++ more) os h₁ (omega (arith, fits, longer))
              (omega (arith, longer, size)) in
          ground (arith, rest)
    ]

-- Every call of `send` with bytes sends one of them at least, or fails.
abbrev pub Sends : Os → Type 0
Sends os = (h : Trace) (sock c : ℕ) (cs : Bytes) → 0 < (os h (send sock (c ∷ cs))).code

module _ (os : Os) (progress : Sends os) where
  send_all-Halts :
      (fuel sock : ℕ) (pending : Bytes) (h : Trace)
      → length pending ≤ fuel
      → Halts (send_all fuel sock pending os h)
  unfolding send_all
  send_all-Halts zero sock [] h enough = tt
  send_all-Halts zero sock (c ∷ cs) h enough = absurd (omega arith)
  send_all-Halts (suc fuel) sock [] h enough = tt
  send_all-Halts (suc fuel) sock (c ∷ cs) h enough =
      let a = os h (send sock (c ∷ cs)) in
      let n = min a.code (length (c ∷ cs)) in
      let shorter : length (drop n (c ∷ cs)) ≤ fuel =
        omega (arith, length-drop n (c ∷ cs), progress h sock c cs) in
      ground
        (arith, send_all-Halts fuel sock (drop n (c ∷ cs)) ((send sock (c ∷ cs), a) ∷ h) shorter)

  put_response-Halts : (sock : ℕ) (path : Bytes) (h : Trace) → Halts (put_response sock path os h)
  unfolding put_response
  put_response-Halts sock path h = ground arith

  put_body-Halts :
      (stack : Bytes) (sock : ℕ) (path : Bytes) (file : File) (r₁ r₂ : ℕ) (h : Trace)
      → Halts (put_body stack sock path file r₁ r₂ os h)
  unfolding put_body
  put_body-Halts stack sock path file r₁ r₂ h = grind (arith, put_response-Halts)

  put_opened-Halts :
      (stack : Bytes) (sock : ℕ) (path : Bytes) (file : File) (r₁ r₂ : Option ℕ) (h : Trace)
      → Halts (put_opened stack sock path file r₁ r₂ os h)
  unfolding put_opened
  put_opened-Halts stack sock path file (some r₁) (some r₂) h =
      put_body-Halts stack sock path file r₁ r₂ h
  put_opened-Halts stack sock path file (some r₁) none h = tt
  put_opened-Halts stack sock path file none (some r₂) h = tt
  put_opened-Halts stack sock path file none none h = tt

  put_remote-Halts :
      (stack : Bytes) (sock : ℕ) (remote : Text) (file : File) (h : Trace)
      → Halts (put_remote stack sock remote file os h)
  unfolding put_remote
  put_remote-Halts stack sock remote file h = grind (arith, put_opened-Halts)

  perform_put_command-Halts :
      (stack : Bytes) (sock : ℕ) (remote local : Option Text) (h : Trace)
      → Halts (perform_put_command stack sock remote local os h)
  unfolding perform_put_command
  perform_put_command-Halts stack sock remote local h = grind (arith, put_remote-Halts)

  device_data-length :
      (message bytes₁ bytes₂ : Bytes)
      → length bytes₁ ≤ half
      → length bytes₂ ≤ half
      → length (device_data message bytes₁ bytes₂) ≤ buffer_size
  device_data-length message bytes₁ bytes₂ one two =
      let first = overwrite bytes₁ message in
      omega (
        arith,
        length-take (length bytes₁ + length bytes₂)
            (take half first ++ overwrite bytes₂ (drop half first)),
      )

  send_devices-Halts :
      (fuel fd1 fd2 sock : ℕ) (message : Bytes) (h : Trace)
      → buffer_size ≤ fuel
      → Halts (send_devices fuel fd1 fd2 sock message os h)
  unfolding send_devices
  send_devices-Halts fuel fd1 fd2 sock message h enough =
      let a = os h (read fd1 half) in
      let h₁ = (read fd1 half, a) ∷ h in
      let b = os h₁ (read fd2 half) in
      let h₂ = (read fd2 half, b) ∷ h₁ in
      let sent = device_data message (take half a.bytes) (take half b.bytes) in
      let size =
        device_data-length message (take half a.bytes) (take half b.bytes)
          (omega (arith, length-take half a.bytes)) (omega (arith, length-take half b.bytes)) in
      ground (arith, send_all-Halts fuel sock sent h₂ (omega (arith, size)))

  get_devices-Halts :
      (fuel sock : ℕ) (message path : Bytes) (h : Trace)
      → buffer_size ≤ fuel
      → Halts (get_devices fuel sock message path os h)
  unfolding get_devices
  get_devices-Halts fuel sock message path h enough =
      let one = open_read (codes "/dev/sdb1") in
      let h₁ = (one, os h one) ∷ h in
      let two = open_read (codes "/dev/sdc1") in
      let h₂ = (two, os h₁ two) ∷ h₁ in
      let h₃ = (fopen_read path, os h₂ (fopen_read path)) ∷ h₂ in
      ground
        (arith, send_devices-Halts fuel (os h one).code (os h₁ two).code sock message h₃ enough)

  handle_command-Halts :
      (fuel : ℕ) (stack : Bytes) (sock : ℕ) (message command remote local : Bytes) (h : Trace)
      → buffer_size ≤ fuel
      → Halts (handle_command fuel stack sock message command remote local os h)
  unfolding handle_command
  handle_command-Halts fuel stack sock message command remote local h enough =
      grind (arith, perform_put_command-Halts, get_devices-Halts fuel sock message remote h enough)

  with_tokens-Halts :
      (fuel : ℕ) (stack : Bytes) (sock : ℕ) (message : Bytes) (command remote local : Option Bytes)
      (h : Trace)
      → buffer_size ≤ fuel
      → Halts (
          with_tokens command remote local
            (hang_up sock)
            (handle_command fuel stack sock message)
            os
            h)
  with_tokens-Halts fuel stack sock message (some command) (some remote) (some local) h enough =
      handle_command-Halts fuel stack sock message command remote local h enough
  with_tokens-Halts fuel stack sock message none remote local h enough = tt
  with_tokens-Halts fuel stack sock message (some command) none local h enough = tt
  with_tokens-Halts fuel stack sock message (some command) (some remote) none h enough = tt

  handle_text-Halts :
      (fuel : ℕ) (stack : Bytes) (sock : ℕ) (message : Bytes) (h : Trace)
      → buffer_size ≤ fuel
      → Halts (handle_text fuel stack sock message os h)
  unfolding handle_text
  handle_text-Halts fuel stack sock message h enough = elim (Option-cases (c_string message)) [
    | inl no_end ↦ rw (no_end, handle_text) tt
    | inr (s, found) ↦
        let r = request_of s in
        rw (found, handle_text)
          (with_tokens-Halts fuel stack sock message r.command.token r.remote.token r.local.token h
            enough)
  ]

  handle_received-Halts :
      (fuel : ℕ) (stack : Bytes) (sock : ℕ) (received : Run (Option Bytes)) (h : Trace)
      → buffer_size ≤ fuel
      → Fills received
      → Halts (handle_received fuel stack sock received os h)
  unfolding handle_received handle_message
  handle_received-Halts fuel stack sock (done none) h enough fills = tt
  handle_received-Halts fuel stack sock (done (some message)) h enough fills =
      let a = os h (read sock buffer_size) in
      ground (
        arith,
        handle_text-Halts fuel stack sock (overwrite (take buffer_size a.bytes) message)
            ((read sock buffer_size, a) ∷ h) enough,
      )
  handle_received-Halts fuel stack sock fault h enough fills = tt
  handle_received-Halts fuel stack sock out_of_fuel h enough fills = fills

-- Where every call of `send` with bytes sends one of them or fails, `client_handler` comes to an end:
-- its loop of `recv` makes at most 8196 calls that give bytes, and its loop of `send` as many.
pub client_handler-Halts :
    (fuel : ℕ) (stack : Bytes) (sock : ℕ) (os : Os) (h : Trace)
    → Sends os
    → buffer_size ≤ fuel
    → Halts (client_handler fuel stack sock os h)
unfolding client_handler
client_handler-Halts fuel stack sock os h progress enough =
    let (received, h₁) = recv_all (buffer_size + 1) sock [] os h in
    handle_received-Halts os progress fuel stack sock received h₁ enough
      (recv_all-Fills (buffer_size + 1) sock [] os h (omega arith) (omega arith))
