-- ===== src/FirstServer.antt =====
-- The server PracticumIIV2/server.c, which has GET and INFO only. Its perform_info_command and its
-- branch for GET are those of PracticumIIV3/server.c, line for line: they are the definitions of Server
-- and Server/Dispatch.
mod Later
mod Tests
use computersystems_monorepo.Prelude.{
  ℕ, zero, suc, Bool, not, none, some, length, drop, if◌then◌else◌,
}
use computersystems_monorepo.Posix.{
  Bytes, Action, pure, ◌>>=◌, ◌>>◌, fails, descriptor, recv_bytes, socket, bind, listen, accept,
  is_negative, minus_one,
}
use computersystems_monorepo.CText.{codes, same, c_string, overwrite, zeros}
use computersystems_monorepo.Server.{buffer_size, perform_info_command}
use computersystems_monorepo.Server.Dispatch.{
  Turn, again, exits, crashes, Request, request_of, left_of, with_path, get_command,
}

-- The chain of tests on the command. Neither branch closes the socket of the client.
unfoldable pub run_command : (client_sock : ℕ) → Request → (left command : Bytes) → Action Turn
run_command client_sock r left command =
    if same command (codes "GET")
    then with_path r.remote.token (λ path. get_command client_sock path left)
    else if same command (codes "INFO")
    then with_path r.remote.token
        (λ path. (do perform_info_command client_sock path; pure (again left)))
    else pure (exits minus_one)

-- `strcmp` of no command is a fault.
unfoldable pub run_message : (client_sock : ℕ) (message : Bytes) → Action Turn
run_message client_sock message = elim (c_string message) [
  | none ↦ pure crashes
  | some s ↦
      let r = request_of s in
      elim r.command.token [
        | none ↦ pure crashes
        | some command ↦ run_command client_sock r (left_of r (drop (length s) message)) command
      ]
]

-- The loop from the call of `recv` on.
unfoldable pub take_request : (client_sock : ℕ) (message : Bytes) → Action Turn
take_request client_sock message = do
  got ← recv_bytes client_sock buffer_size
  elim got [
    | none ↦ pure (exits minus_one)
    | some bytes ↦ run_message client_sock (overwrite bytes message)
  ]

-- One turn of the loop.
unfoldable pub serve_one : (message : Bytes) → Action Turn
serve_one message = do
  client_sock ← descriptor accept
  if is_negative client_sock then pure (exits minus_one) else take_request client_sock message

-- The first `turns` turns of the loop.
unfoldable pub serve : (turns : ℕ) (message : Bytes) → Action Turn
serve zero message = pure (again message)
serve (suc turns) message = do
  turn ← serve_one message
  elim turn [
    | again message' ↦ serve turns message'
    | exits code ↦ pure (exits code)
    | crashes ↦ pure crashes
  ]

-- `main`; `client_message` was cleared by `memset`.
unfoldable pub run_main : (argc_is_two : Bool) (turns : ℕ) → Action Turn
run_main argc_is_two turns = if not argc_is_two then pure (exits 0) else (do
  no_socket ← fails socket
  if no_socket then pure (exits minus_one) else (do
    not_bound ← fails bind
    if not_bound then pure (exits minus_one) else (do
      not_listening ← fails listen
      if not_listening then pure (exits minus_one) else serve turns (zeros buffer_size))))
