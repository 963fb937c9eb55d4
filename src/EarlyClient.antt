-- ===== src/EarlyClient.antt =====
-- The client PracticumII/fgets.c. Its branches for INFO, MD and RM, and what it does with what comes
-- from the server, are those of PracticumIIV3/fgets.c, line for line: they are the definitions of
-- Client. It has no devices; GET asks the server, and PUT sends the size of the file and the file.
pub mod Asks
mod Put
mod Tests
use computersystems_monorepo.Prelude.{
  ℕ, zero, suc, ◌+◌, ◌%◌, ◌^◌, Bool, true, false, ltb, Option, none, some, List, [], ◌∷◌, ◌++◌,
  if◌then◌else◌, length, take, drop,
}
use computersystems_monorepo.Posix.{
  Bytes, Action, File, pure, ◌>>=◌, ◌>>◌, ask, fails, descriptor, fopen_to_read, recv_bytes, send,
  close, fclose, socket, connect, is_negative, minus_one,
}
use computersystems_monorepo.CText.{codes, same, signed, c_string, overwrite}
use computersystems_monorepo.Client.{
  buffer_size, End, exits, crashes, info_command, md_command, rm_command, Received, failed,
  recv_file, save_received, with_local,
}

abbrev pub get_request : (remote_file_path : Bytes) → Bytes
get_request remote_file_path = codes "GET " ++ remote_file_path

-- `argv[1]`, which is "PUT" here, is the remote path, whatever `argc` is.
abbrev pub put_request : (file_size : ℕ) → Bytes
put_request file_size = codes "PUT " ++ (codes "PUT " ++ signed 32 (file_size % 2 ^ 32))

-- The loop that sends the file, and whether no call of `send` failed.
unfoldable pub send_file : ℕ → (socket_desc : ℕ) → (rest : Bytes) → Action Bool
send_file zero socket_desc rest = pure true
send_file (suc fuel) socket_desc [] = pure true
send_file (suc fuel) socket_desc (c ∷ rest) =
    let more = send_file fuel socket_desc (drop buffer_size (c ∷ rest)) in
    do
      not_sent ← fails (send socket_desc (take buffer_size (c ∷ rest)))
      if not_sent then pure false else more

-- PUT behind the answer of the server: `response` is the array, of which `recv` wrote the start.
unfoldable pub put_file : (socket_desc : ℕ) (file : File) (response : Bytes) → Action End
put_file socket_desc file response = elim (c_string response) [
  | none ↦ pure crashes
  | some text ↦
      if same text (codes "READY")
      then (do
        sent ← send_file (length file.rest) socket_desc file.rest
        (if sent
            then (do ask (fclose file.stream); ask (close socket_desc); pure (exits 0))
            else pure (exits minus_one)))
      else pure (exits minus_one)
]

-- PUT from the call of `send` on. `stack` is what the array `response` held.
unfoldable pub put_opened :
    (stack : Bytes) (socket_desc : ℕ) (file : File) (request : Bytes) → Action End
put_opened stack socket_desc file request = do
  not_sent ← fails (send socket_desc request)
  if not_sent then pure (exits minus_one) else (do
    got ← recv_bytes socket_desc buffer_size
    elim got [
      | none ↦ pure (exits minus_one)
      | some bytes ↦ put_file socket_desc file (overwrite bytes stack)
    ])

-- PUT; the file is `argv[2]`.
unfoldable pub put_command : (stack : Bytes) (socket_desc : ℕ) (path : Bytes) → Action End
put_command stack socket_desc path = do
  opened ← fopen_to_read path
  elim opened [
    | none ↦ pure (exits minus_one)
    | some file ↦ put_opened stack socket_desc file (put_request (length file.rest))
  ]

-- What main does with what came. A call of `fopen` on NULL is a fault.
abbrev pub save_to : (socket_desc : ℕ) (local_file_path : Option Bytes) → Received → Action End
save_to socket_desc (some local_file_path) received =
    save_received socket_desc local_file_path received
save_to socket_desc none failed = pure (exits minus_one)
save_to socket_desc none received = pure crashes

-- The end of main, behind the branches.
unfoldable pub exchange :
    (socket_desc : ℕ) (request : Bytes) (local_file_path : Option Bytes) → Action End
exchange socket_desc request local_file_path =
    if ltb (length request) buffer_size
    then (do
      not_sent ← fails (send socket_desc request)
      (if not_sent then pure (exits minus_one) else (do
        received ← recv_file (buffer_size + 1) socket_desc []
        save_to socket_desc local_file_path received)))
    else pure crashes

-- The chain of tests on the command.
unfoldable pub run_command :
    (stack : Bytes) (client_sock socket_desc : ℕ) (command remote_file_path : Bytes)
    (local_file_path : Option Bytes)
    → Action End
run_command stack client_sock socket_desc command remote_file_path local_file_path =
    if same command (codes "GET")
    then exchange socket_desc (get_request remote_file_path) local_file_path
    else if same command (codes "INFO")
    then info_command socket_desc remote_file_path
    else if same command (codes "MD")
    then md_command client_sock remote_file_path
    else if same command (codes "RM")
    then rm_command client_sock remote_file_path
    else if same command (codes "PUT")
    then put_command stack socket_desc remote_file_path
    else with_local local_file_path
        λ path. exchange socket_desc (command ++ b' ' ∷ remote_file_path ++ b' ' ∷ path) (some path)

-- `main`, with the arguments behind the name of the program.
unfoldable pub run_main : (stack : Bytes) (client_sock : ℕ) (argv : List Bytes) → Action End
run_main stack client_sock [] = pure (exits minus_one)
run_main stack client_sock (command ∷ []) = pure (exits minus_one)
run_main stack client_sock (command ∷ remote_file_path ∷ rest) = do
  socket_desc ← descriptor socket
  if is_negative socket_desc then pure (exits minus_one) else (do
    refused ← fails connect
    if refused
        then pure (exits minus_one)
        else run_command stack client_sock socket_desc command remote_file_path
            (elim rest [ [] ↦ none | local_file_path ∷ _ ↦ some local_file_path ]))
