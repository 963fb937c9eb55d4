-- ===== src/TestClient.antt =====
-- The client PracticumIITest/fgets.c. INFO goes on behind what it sends of its own, PUT asks the server
-- with two words, and the file that comes is neither closed nor is the socket.
mod Put
mod Tests
use computersystems_monorepo.Prelude.{
  ℕ, zero, suc, ◌+◌, ◌-◌, ltb, Option, none, some, List, [], ◌∷◌, ◌++◌, if◌then◌else◌, length,
}
use computersystems_monorepo.Posix.{
  Bytes, Action, pure, ◌>>=◌, ◌>>◌, ask, fails, gives_zero, descriptor, fopen_to_write, recv_bytes,
  fwrite_bytes, stat, send, close, remove, socket, connect, is_negative, minus_one,
}
use computersystems_monorepo.CText.{codes, same}
use computersystems_monorepo.Client.{
  End, exits, crashes, info_text, Received, all, failed, out_of_fuel, end_at_zero,
}
use computersystems_monorepo.TestServer.{bufsiz}

-- The loop of `recv`; the array has `bufsiz` bytes.
unfoldable pub recv_file : ℕ → (socket_desc : ℕ) → (got : Bytes) → Action Received
recv_file zero socket_desc got = pure out_of_fuel
recv_file (suc fuel) socket_desc got = do
  more ← recv_bytes socket_desc (bufsiz - length got)
  elim more [
    | none ↦ pure failed
    | some bytes ↦ elim bytes [
      | [] ↦ pure (all got)
      | c ∷ cs ↦ recv_file fuel socket_desc (got ++ c ∷ cs)
    ]
  ]

-- `main` ends without a `return`, which is 0.
unfoldable pub save_file : (local_file_path file_data : Bytes) → Action End
save_file local_file_path file_data = do
  opened ← fopen_to_write local_file_path
  elim opened [
    | none ↦ pure (exits minus_one)
    | some file ↦ do
      written ← fwrite_bytes file file_data
      pure (if ltb written (length file_data) then exits minus_one else exits 0)
  ]

-- A call of `fopen` on NULL is a fault.
unfoldable pub save_to : (local_file_path : Option Bytes) → Received → Action End
save_to local_file_path failed = pure (exits minus_one)
save_to local_file_path out_of_fuel = pure crashes
save_to none (all bytes) = pure crashes
save_to (some local_file_path) (all bytes) = save_file local_file_path (end_at_zero bytes)

-- The end of main, behind the branches.
unfoldable pub exchange :
    (socket_desc : ℕ) (request : Bytes) (local_file_path : Option Bytes) → Action End
exchange socket_desc request local_file_path =
    if ltb (length request) bufsiz
    then (do
      not_sent ← fails (send socket_desc request)
      (if not_sent then pure (exits minus_one) else (do
        received ← recv_file (bufsiz + 1) socket_desc []
        save_to local_file_path received)))
    else pure crashes

-- INFO sends a text about the client's own file, and then its request.
unfoldable pub info_command :
    (socket_desc : ℕ) (remote_file_path : Bytes) (local_file_path : Option Bytes) → Action End
info_command socket_desc remote_file_path local_file_path = do
  a ← ask (stat remote_file_path)
  if is_negative a.code
      then pure (exits minus_one)
      else (if ltb (length (info_text remote_file_path a.info)) bufsiz
          then (do
            not_sent ← fails (send socket_desc (info_text remote_file_path a.info))
            (if not_sent
                then pure (exits minus_one)
                else exchange socket_desc (codes "INFO " ++ remote_file_path) local_file_path))
          else pure crashes)

-- RM removes the client's own file. `client_sock` is never set.
unfoldable pub rm_command : (client_sock : ℕ) (remote_file_path : Bytes) → Action End
rm_command client_sock remote_file_path = do
  gone ← gives_zero (remove remote_file_path)
  let request =
      codes "RM "
      ++ (remote_file_path
          ++ (if gone
              then codes "File or directory deleted successfully\n"
              else codes "Error deleting file or directory\n"))
  if ltb (length request) bufsiz
      then (do
        not_sent ← fails (send client_sock request)
        (if not_sent then pure (exits minus_one) else (do ask (close client_sock); pure (exits 0))))
      else pure crashes

-- `argv[1]`, which is "PUT", is the remote path, and `argv[2]` the local one, whatever `argc` is.
unfoldable pub put_command : (socket_desc : ℕ) (path : Bytes) → Action End
put_command socket_desc path = exchange socket_desc (codes "PUT " ++ codes "PUT") (some path)

-- `sprintf` of a local path that is NULL is a fault.
unfoldable pub other_command :
    (socket_desc : ℕ) (command remote_file_path : Bytes) (local_file_path : Option Bytes)
    → Action End
other_command socket_desc command remote_file_path none = pure crashes
other_command socket_desc command remote_file_path (some path) =
    exchange socket_desc (command ++ b' ' ∷ (remote_file_path ++ b' ' ∷ path)) (some path)

-- The chain of tests on the command.
unfoldable pub run_command :
    (client_sock socket_desc : ℕ) (command remote_file_path : Bytes)
    (local_file_path : Option Bytes)
    → Action End
run_command client_sock socket_desc command remote_file_path local_file_path =
    if same command (codes "GET")
    then exchange socket_desc (codes "GET " ++ remote_file_path) local_file_path
    else if same command (codes "INFO")
    then info_command socket_desc remote_file_path local_file_path
    else if same command (codes "PUT")
    then put_command socket_desc remote_file_path
    else if same command (codes "RM")
    then rm_command client_sock remote_file_path
    else other_command socket_desc command remote_file_path local_file_path

-- `main`, with the arguments behind the name of the program.
unfoldable pub run_main : (client_sock : ℕ) (argv : List Bytes) → Action End
run_main client_sock [] = pure (exits minus_one)
run_main client_sock (command ∷ []) = pure (exits minus_one)
run_main client_sock (command ∷ remote_file_path ∷ rest) = do
  socket_desc ← descriptor socket
  if is_negative socket_desc then pure (exits minus_one) else (do
    refused ← fails connect
    if refused
        then pure (exits minus_one)
        else run_command client_sock socket_desc command remote_file_path
            (elim rest [ [] ↦ none | local_file_path ∷ _ ↦ some local_file_path ]))
