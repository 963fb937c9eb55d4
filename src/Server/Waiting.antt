-- ===== src/Server/Waiting.antt =====
-- The socket of a client whose request main has handled.
use computersystems_monorepo.Prelude.{ℕ, zero, suc, ◌≡◌, refl, arith, [], ◌∷◌, take, drop}
use computersystems_monorepo.Posix.{Bytes, Os, Trace, send, recv}
use computersystems_monorepo.CText.{overwrite}
use computersystems_monorepo.Server.{buffer_size}
use computersystems_monorepo.Server.Dispatch.{
  Turn, again, exits, crashes, Request, send_file, get_command, respond, md_command, remove_path,
  rm_command, put_command, run_command, run_message, take_request,
}
use computersystems_monorepo.Server.Sockets.{
  closes, Keeps, perform_info_command-Keeps, perform_put_command-Keeps,
}

-- Where the loop goes on, `close` was not called on the descriptor.
abbrev pub LeavesOpen : (fd : ℕ) → Trace → Turn × Trace → Type 0
LeavesOpen fd h (again message, h') = closes fd h' ≡ closes fd h
LeavesOpen fd h (exits code, h') = Unit {0}
LeavesOpen fd h (crashes, h') = Unit {0}

module _ (fd : ℕ) where
  send_file-Keeps : (fuel sock : ℕ) (rest : Bytes) → Keeps fd (send_file fuel sock rest)
  unfolding send_file
  send_file-Keeps zero sock rest os h = refl
  send_file-Keeps (suc fuel) sock [] os h = refl
  send_file-Keeps (suc fuel) sock (c ∷ rest) os h =
      let call = send sock (take buffer_size (c ∷ rest)) in
      ground
        (arith, send_file-Keeps fuel sock (drop buffer_size (c ∷ rest)) os ((call, os h call) ∷ h))

  module _ (os : Os) (h : Trace) where
    get_command-LeavesOpen :
        (sock : ℕ) (path left : Bytes) → LeavesOpen fd h (get_command sock path left os h)
    unfolding get_command
    get_command-LeavesOpen sock path left = grind (arith, send_file-Keeps)

    put_command-LeavesOpen :
        (stack : Bytes) (sock : ℕ) (r : Request) (left : Bytes)
        → LeavesOpen fd h (put_command stack sock r left os h)
    unfolding put_command
    put_command-LeavesOpen stack sock r left = grind (arith, perform_put_command-Keeps)

    rm_command-LeavesOpen :
        (stack : Bytes) (sock : ℕ) (path : Bytes)
        → LeavesOpen fd h (rm_command stack sock path os h)
    unfolding rm_command remove_path respond
    rm_command-LeavesOpen stack sock path = ground arith

    md_command-LeavesOpen :
        (stack : Bytes) (sock : ℕ) (path : Bytes)
        → LeavesOpen fd h (md_command stack sock path os h)
    unfolding md_command respond
    md_command-LeavesOpen stack sock path = ground arith

    run_command-LeavesOpen :
        (stack : Bytes) (sock : ℕ) (r : Request) (left command : Bytes)
        → LeavesOpen fd h (run_command stack sock r left command os h)
    unfolding run_command
    run_command-LeavesOpen stack sock r left command = grind (
      arith, get_command-LeavesOpen, md_command-LeavesOpen, rm_command-LeavesOpen,
      put_command-LeavesOpen, perform_info_command-Keeps,
    )

    run_message-LeavesOpen :
        (stack : Bytes) (sock : ℕ) (message : Bytes)
        → LeavesOpen fd h (run_message stack sock message os h)
    unfolding run_message
    run_message-LeavesOpen stack sock message = grind (arith, run_command-LeavesOpen)

-- Where main goes on after a request, it has not closed the socket of the client, whatever the
-- command was and whatever the system answered.
pub take_request-LeavesOpen :
    (fd : ℕ) (stack : Bytes) (sock : ℕ) (message : Bytes) (os : Os) (h : Trace)
    → LeavesOpen fd h (take_request stack sock message os h)
unfolding take_request
take_request-LeavesOpen fd stack sock message os h =
    let a = os h (recv sock buffer_size) in
    ground (
      arith,
      run_message-LeavesOpen fd os ((recv sock buffer_size, a) ∷ h) stack sock
          (overwrite (take buffer_size a.bytes) message),
    )
