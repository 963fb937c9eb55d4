-- ===== src/Client/Main.antt =====
-- main of PracticumIIV3/fgets.c: the chain of tests on the command, and what is before it.
use computersystems_monorepo.Prelude.{
  ℕ, not, ◌||◌, ltb, Option, none, some, List, [], ◌∷◌, ◌++◌, if◌then◌else◌, length,
}
use computersystems_monorepo.Posix.{
  Bytes, Action, pure, ◌>>=◌, ◌>>◌, fails, gives_zero, descriptor, stat, socket, connect,
  is_negative, minus_one,
}
use computersystems_monorepo.CText.{codes, same}
use computersystems_monorepo.Client.{
  buffer_size, End, exits, crashes, get_files, info_command, md_command, rm_command, put_command,
  exchange, with_local,
}
use computersystems_monorepo.Client.Behind.{behind_tests}

-- A call of `sprintf` into `request`, which is written again before it is sent.
abbrev pub fits : Bytes → Action End → Action End
fits text next = if ltb (length text) buffer_size then next else pure crashes

-- The chain of tests on the command, and what is behind it.
unfoldable pub run_command :
    (stack : Bytes) (client_sock socket_desc : ℕ) (command remote_file_path : Bytes)
    (local_file_path : Option Bytes)
    → Action End
run_command stack client_sock socket_desc command remote_file_path local_file_path =
    if same command (codes "GET")
    then fits (codes "GET " ++ remote_file_path)
        (do get_files remote_file_path; with_local local_file_path (exchange socket_desc))
    else if same command (codes "INFO")
    then info_command socket_desc remote_file_path
    else if same command (codes "MD")
    then md_command client_sock remote_file_path
    else if same command (codes "RM")
    then rm_command client_sock remote_file_path
    else if same command (codes "PUT")
    then put_command (behind_tests stack socket_desc remote_file_path)
    else with_local local_file_path
        λ path. fits (command ++ b' ' ∷ remote_file_path ++ b' ' ∷ path) (exchange socket_desc path)

unfoldable pub connect_and_run :
    (stack : Bytes) (client_sock : ℕ) (command remote_file_path : Bytes)
    (local_file_path : Option Bytes)
    → Action End
connect_and_run stack client_sock command remote_file_path local_file_path = do
  socket_desc ← descriptor socket
  if is_negative socket_desc then pure (exits minus_one) else (do
    refused ← fails connect
    if refused
        then pure (exits minus_one)
        else run_command stack client_sock socket_desc command remote_file_path local_file_path)

-- `main`, with the arguments behind the name of the program.
unfoldable pub run_main : (stack : Bytes) (client_sock : ℕ) (argv : List Bytes) → Action End
run_main stack client_sock [] = pure (exits minus_one)
run_main stack client_sock (command ∷ []) = pure (exits minus_one)
run_main stack client_sock (command ∷ remote_file_path ∷ rest) = do
  sdb1_there ← gives_zero (stat (codes "/dev/sdb1"))
  sdc1_there ← gives_zero (stat (codes "/dev/sdc1"))
  if not sdb1_there || not sdc1_there
      then pure (exits minus_one)
      else connect_and_run stack client_sock command remote_file_path
          (elim rest [ [] ↦ none | local_file_path ∷ _ ↦ some local_file_path ])
