-- ===== src/EarlyServer.antt =====
-- The server PracticumII/server.c. Its functions perform_info_command and perform_put_command, and
-- its branches for a request, are those of PracticumIIV3/server.c, line for line: they are the
-- definitions of Server and Server/Dispatch. Here is its main, which has no devices and no threads.
mod Leaks
mod Tests
use computersystems_monorepo.Prelude.{ℕ, zero, suc, Bool, not, if◌then◌else◌}
use computersystems_monorepo.Posix.{
  Bytes, Action, pure, ◌>>=◌, fails, descriptor, socket, bind, listen, accept, is_negative,
  minus_one,
}
use computersystems_monorepo.CText.{zeros}
use computersystems_monorepo.Server.{buffer_size}
use computersystems_monorepo.Server.Dispatch.{Turn, again, exits, crashes, take_request}

-- One turn of the loop. `stack` is what the variables hold that are read before they are set.
unfoldable pub serve_one : (stack message : Bytes) → Action Turn
serve_one stack message = do
  client_sock ← descriptor accept
  if is_negative client_sock then pure (exits minus_one) else take_request stack client_sock message

-- The first `turns` turns of the loop.
unfoldable pub serve : (turns : ℕ) (stack message : Bytes) → Action Turn
serve zero stack message = pure (again message)
serve (suc turns) stack message = do
  turn ← serve_one stack message
  elim turn [
    | again message' ↦ serve turns stack message'
    | exits code ↦ pure (exits code)
    | crashes ↦ pure crashes
  ]

-- `main`; `client_message` was cleared by `memset`.
unfoldable pub run_main : (argc_is_two : Bool) (turns : ℕ) (stack : Bytes) → Action Turn
run_main argc_is_two turns stack = if not argc_is_two then pure (exits 0) else (do
  no_socket ← fails socket
  if no_socket then pure (exits minus_one) else (do
    not_bound ← fails bind
    if not_bound then pure (exits minus_one) else (do
      not_listening ← fails listen
      if not_listening then pure (exits minus_one) else serve turns stack (zeros buffer_size))))
