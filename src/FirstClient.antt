-- ===== src/FirstClient.antt =====
-- The client PracticumIIV2/fgets.c. Its branch for INFO, and what it does with what comes from the
-- server, are those of PracticumII/fgets.c, line for line: they are the definitions of Client and
-- EarlyClient. Any command but GET and INFO is sent to the server as it is.
mod Asks
mod Tests
use computersystems_monorepo.Prelude.{ℕ, Option, none, some, List, [], ◌∷◌, ◌++◌, if◌then◌else◌}
use computersystems_monorepo.Posix.{
  Bytes, Action, pure, ◌>>=◌, fails, descriptor, socket, connect, is_negative, minus_one,
}
use computersystems_monorepo.CText.{codes, same}
use computersystems_monorepo.Client.{End, exits, info_command, with_local}
use computersystems_monorepo.EarlyClient.{get_request, exchange}

abbrev pub other_request : (command remote_file_path local_file_path : Bytes) → Bytes
other_request command remote_file_path local_file_path =
    command ++ b' ' ∷ (remote_file_path ++ b' ' ∷ local_file_path)

-- The chain of tests on the command. `sprintf` of a local path that is NULL is a fault.
unfoldable pub run_command :
    (socket_desc : ℕ) (command remote_file_path : Bytes) (local_file_path : Option Bytes)
    → Action End
run_command socket_desc command remote_file_path local_file_path =
    if same command (codes "GET")
    then exchange socket_desc (get_request remote_file_path) local_file_path
    else if same command (codes "INFO")
    then info_command socket_desc remote_file_path
    else with_local local_file_path
        λ path. exchange socket_desc (other_request command remote_file_path path) (some path)

-- `main`, with the arguments behind the name of the program.
unfoldable pub run_main : (argv : List Bytes) → Action End
run_main [] = pure (exits minus_one)
run_main (command ∷ []) = pure (exits minus_one)
run_main (command ∷ remote_file_path ∷ rest) = do
  socket_desc ← descriptor socket
  if is_negative socket_desc then pure (exits minus_one) else (do
    refused ← fails connect
    if refused
        then pure (exits minus_one)
        else run_command socket_desc command remote_file_path
            (elim rest [ [] ↦ none | local_file_path ∷ _ ↦ some local_file_path ]))
