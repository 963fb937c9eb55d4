-- ===== src/TestServer.antt =====
-- The server PracticumIITest/server.c. Its functions perform_info_command and perform_put_command, and
-- what RM does to a path, are those of PracticumIIV3/server.c, line for line: they are the definitions
-- of Server and Server/Dispatch. It closes the socket of a client behind each request, and keeps the
-- array `response` over the turns of its loop.
mod Empties
mod Removals
mod Response
mod Tests
use computersystems_monorepo.Prelude.{
  ℕ, zero, suc, ◌+◌, ◌-◌, Bool, not, ltb, Option, none, some, [], ◌∷◌, ◌++◌, if◌then◌else◌, length,
  drop,
}
use computersystems_monorepo.Posix.{
  Bytes, Action, pure, ◌>>=◌, ◌>>◌, ask, fails, gives_zero, descriptor, fopen_to_write, recv_bytes,
  send, close, fclose, mkdir, socket, bind, listen, accept, is_negative, minus_one,
}
use computersystems_monorepo.CText.{codes, same, c_string, overwrite, zeros, Scan, Text}
use computersystems_monorepo.Server.{
  buffer_size, done, fault, out_of_fuel, perform_info_command, perform_put_command,
}
use computersystems_monorepo.Server.Dispatch.{Request, request_of, left_of, renamed, remove_path}

-- `BUFSIZ` of stdio.h.
abbrev pub bufsiz : ℕ
bufsiz = 8192

-- A turn of the loop: the next one, with the bytes of `client_message` and of `response`, or the end of
-- the program; `crashes` is a use of NULL. `out_of_bounds` is a read or write past the end of one of the
-- two arrays, and what C does then is not modelled.
pub data Turn : Type 0 where
  again : (message response : Bytes) → Turn
  exits : ℕ → Turn
  crashes : Turn
  out_of_bounds : Turn

-- The end of the body of the loop.
abbrev pub hang_up : (client_sock : ℕ) (left response : Bytes) → Action Turn
hang_up client_sock left response = do ask (close client_sock); pure (again left response)

-- The file is opened for writing, so `fread` gives nothing of it. A file that cannot be opened skips
-- the end of the body.
unfoldable pub get_command : (client_sock : ℕ) (path left response : Bytes) → Action Turn
get_command client_sock path left response = do
  opened ← fopen_to_write path
  elim opened [
    | none ↦ pure (again left response)
    | some file ↦ do ask (fclose file); hang_up client_sock left response
  ]

-- The end of MD and RM, where `text` was put into `response`.
unfoldable pub respond : (client_sock : ℕ) (text left response : Bytes) → Action Turn
respond client_sock text left response =
    if ltb (length text) buffer_size
    then (do
      failed ← fails (send client_sock text)
      (if failed
          then pure (exits minus_one)
          else hang_up client_sock left (overwrite (text ++ 0 ∷ []) response)))
    else pure out_of_bounds

unfoldable pub md_command : (client_sock : ℕ) (path left response : Bytes) → Action Turn
md_command client_sock path left response = do
  made ← gives_zero (mkdir path)
  respond client_sock
      (codes "MD "
        ++ (path
            ++ (if made
                then codes "Directory created successfully\n"
                else codes "Error creating directory\n")))
      left response

-- The text is put behind what `response` holds from the turns before.
unfoldable pub rm_command : (client_sock : ℕ) (path left response : Bytes) → Action Turn
rm_command client_sock path left response = do
  text ← remove_path path
  elim (c_string response) [
    | none ↦ pure out_of_bounds
    | some old ↦ respond client_sock (old ++ text) left response
  ]

-- The token as a string in the buffer, of which `start` bytes stand before the scan.
abbrev pub text_of : (start : ℕ) → Scan → Option Text
text_of start scan = elim scan.token [
  | none ↦ none
  | some word ↦
      some (record { chars = word; room = bufsiz - (start + length scan.spaces + length word + 1) })
]

unfoldable pub put_command :
    (stack : Bytes) (client_sock : ℕ) → Request → (left response : Bytes) → Action Turn
put_command stack client_sock r left response = do
  let at_remote = length r.command.passed
  let at_local = at_remote + length r.remote.passed
  run ←
      perform_put_command stack client_sock (text_of at_remote r.remote) (text_of at_local r.local)
  elim run [
    | done changed ↦ hang_up client_sock (if changed then renamed r left else left) response
    | fault ↦ pure crashes
    | out_of_fuel ↦ pure crashes
  ]

abbrev pub with_path : Option Bytes → (Bytes → Action Turn) → Action Turn
with_path none branch = pure crashes
with_path (some path) branch = branch path

-- The chain of tests on the command.
unfoldable pub run_command :
    (stack : Bytes) (client_sock : ℕ) → Request → (left response command : Bytes) → Action Turn
run_command stack client_sock r left response command =
    if same command (codes "GET")
    then with_path r.remote.token (λ path. get_command client_sock path left response)
    else if same command (codes "INFO")
    then with_path r.remote.token
        (λ path. (do perform_info_command client_sock path; hang_up client_sock left response))
    else if same command (codes "PUT")
    then put_command stack client_sock r left response
    else if same command (codes "MD")
    then with_path r.remote.token (λ path. md_command client_sock path left response)
    else if same command (codes "RM")
    then with_path r.remote.token (λ path. rm_command client_sock path left response)
    else pure (exits minus_one)

-- `strcmp` of no command is a fault.
unfoldable pub run_message :
    (stack : Bytes) (client_sock : ℕ) (message response : Bytes) → Action Turn
run_message stack client_sock message response = elim (c_string message) [
  | none ↦ pure out_of_bounds
  | some s ↦
      let r = request_of s in
      elim r.command.token [
        | none ↦ pure crashes
        | some command ↦
            run_command stack client_sock r (left_of r (drop (length s) message)) response command
      ]
]

-- The loop from the call of `recv` on.
unfoldable pub take_request :
    (stack : Bytes) (client_sock : ℕ) (message response : Bytes) → Action Turn
take_request stack client_sock message response = do
  got ← recv_bytes client_sock bufsiz
  elim got [
    | none ↦ pure (exits minus_one)
    | some bytes ↦ run_message stack client_sock (overwrite bytes message) response
  ]

-- One turn of the inner loop, which never ends but with the program.
unfoldable pub serve_one : (stack message response : Bytes) → Action Turn
serve_one stack message response = do
  client_sock ← descriptor accept
  if is_negative client_sock
      then pure (exits minus_one)
      else take_request stack client_sock message response

-- The first `turns` turns.
unfoldable pub serve : (turns : ℕ) (stack message response : Bytes) → Action Turn
serve zero stack message response = pure (again message response)
serve (suc turns) stack message response = do
  turn ← serve_one stack message response
  elim turn [
    | again message' response' ↦ serve turns stack message' response'
    | exits code ↦ pure (exits code)
    | crashes ↦ pure crashes
    | out_of_bounds ↦ pure out_of_bounds
  ]

-- `main`; `client_message` was cleared by `memset`, `response` holds what the stack held.
unfoldable pub run_main : (argc_is_two : Bool) (turns : ℕ) (stack response : Bytes) → Action Turn
run_main argc_is_two turns stack response = if not argc_is_two then pure (exits 0) else (do
  no_socket ← fails socket
  if no_socket then pure (exits minus_one) else (do
    not_bound ← fails bind
    if not_bound then pure (exits minus_one) else (do
      not_listening ← fails listen
      if not_listening then pure (exits minus_one) else serve turns stack (zeros bufsiz) response)))
