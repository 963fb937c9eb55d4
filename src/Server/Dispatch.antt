-- ===== src/Server/Dispatch.antt =====
-- What main of PracticumIIV3/server.c does with a request: the tokens of the message, and the branches
-- for GET, INFO, MD, RM and PUT. The buffer `client_message` is kept over the turns of the loop.
use computersystems_monorepo.Prelude.{
  ℕ, zero, suc, ◌+◌, ◌-◌, Bool, true, false, ltb, Option, none, some, [], ◌∷◌, ◌++◌, if◌then◌else◌,
  length, take, drop,
}
use computersystems_monorepo.Posix.{
  Bytes, Action, pure, ◌>>=◌, ◌>>◌, ask, fails, gives_zero, fopen_to_read, recv_bytes, stat, send,
  close, fclose, mkdir, unlink, rmdir, is_negative, minus_one,
}
use computersystems_monorepo.CText.{codes, same, c_string, overwrite, Scan, strtok, Text}
use computersystems_monorepo.Server.{
  buffer_size, done, fault, out_of_fuel, perform_info_command, perform_put_command,
}

-- A turn of the loop: the next one, with the bytes of `client_message`, or the end of the program;
-- `crashes` is a fault.
pub data Turn : Type 0 where
  again : Bytes → Turn
  exits : ℕ → Turn
  crashes : Turn

-- The three calls of `strtok` on the string `s`.
pub record Request : Type 0 where
  pub command : Scan
  pub remote : Scan
  pub local : Scan

abbrev pub request_of : Bytes → Request
request_of s =
    let command = strtok s in
    let remote = strtok command.rest in
    record { command = command; remote = remote; local = strtok remote.rest }

-- The buffer after the calls of `strtok`, where `tail` stands behind the string.
abbrev pub left_of : Request → (tail : Bytes) → Bytes
left_of r tail = r.command.passed ++ r.remote.passed ++ r.local.passed ++ r.local.rest ++ tail

-- The token as a string in the buffer, of which `start` bytes stand before the scan.
abbrev pub text_of : (start : ℕ) → Scan → Option Text
text_of start scan = elim scan.token [
  | none ↦ none
  | some word ↦
      some (record {
        chars = word;
        room = buffer_size - (start + length scan.spaces + length word + 1);
      })
]

-- The buffer after `perform_put_command` has put "12" behind the remote path.
abbrev pub renamed : Request → (left : Bytes) → Bytes
renamed r left = elim r.remote.token [
  | none ↦ left
  | some word ↦
      let before = length r.command.passed + length r.remote.spaces + length word in
      take before left ++ overwrite (codes "12" ++ 0 ∷ []) (drop before left)
]

-- The loop that sends a file, and whether all calls of `send` worked.
unfoldable pub send_file : ℕ → (client_sock : ℕ) → (rest : Bytes) → Action Bool
send_file zero client_sock rest = pure true
send_file (suc fuel) client_sock [] = pure true
send_file (suc fuel) client_sock (c ∷ rest) =
    let more = send_file fuel client_sock (drop buffer_size (c ∷ rest)) in
    do
      failed ← fails (send client_sock (take buffer_size (c ∷ rest)))
      if failed then pure false else more

unfoldable pub get_command : (client_sock : ℕ) (path left : Bytes) → Action Turn
get_command client_sock path left = do
  opened ← fopen_to_read path
  elim opened [
    | none ↦ pure (exits minus_one)
    | some file ↦ do
      sent ← send_file (length file.rest) client_sock file.rest
      (if sent then (do ask (fclose file.stream); pure (again left)) else pure (exits minus_one))
  ]

-- The end of MD and RM. `stack` is what the array `response`, which is never set, holds.
unfoldable pub respond : (stack : Bytes) (client_sock : ℕ) → Bytes → Action Turn
respond stack client_sock text = elim (c_string stack) [
  | none ↦ pure crashes
  | some old ↦
      if ltb (length (old ++ text)) buffer_size
      then (do
        failed ← fails (send client_sock (old ++ text))
        (if failed then pure (exits minus_one) else (do ask (close client_sock); pure (exits 0))))
      else pure crashes
]

unfoldable pub md_command : (stack : Bytes) (client_sock : ℕ) (path : Bytes) → Action Turn
md_command stack client_sock path = do
  made ← gives_zero (mkdir path)
  respond stack client_sock (
      if made then codes "Directory created successfully\n" else codes "Error creating directory\n")

-- What RM does to a path, and the text that it reports.
unfoldable pub remove_path : (path : Bytes) → Action Bytes
remove_path path = do
  s ← ask (stat path)
  if is_negative s.code
      then pure (codes "Error getting file or directory information\n")
      else if s.info.is_regular
      then (do
        gone ← gives_zero (unlink path)
        pure (if gone then codes "File deleted successfully\n" else codes "Error deleting file\n"))
      else if s.info.is_directory
      then (do
        gone ← gives_zero (rmdir path)
        pure (
            if gone
            then codes "Directory deleted successfully\n"
            else codes "Error deleting directory\n"))
      else pure (codes "Unknown file type\n")

unfoldable pub rm_command : (stack : Bytes) (client_sock : ℕ) (path : Bytes) → Action Turn
rm_command stack client_sock path = do text ← remove_path path; respond stack client_sock text

unfoldable pub put_command :
    (stack : Bytes) (client_sock : ℕ) → Request → (left : Bytes) → Action Turn
put_command stack client_sock r left = do
  let at_remote = length r.command.passed
  let at_local = at_remote + length r.remote.passed
  run ←
      perform_put_command stack client_sock (text_of at_remote r.remote) (text_of at_local r.local)
  pure (elim run [
    | done changed ↦ again (if changed then renamed r left else left)
    | fault ↦ crashes
    | out_of_fuel ↦ crashes
  ])

-- A branch that uses the remote path.
abbrev pub with_path : Option Bytes → (Bytes → Action Turn) → Action Turn
with_path none branch = pure crashes
with_path (some path) branch = branch path

-- The chain of tests on the command.
unfoldable pub run_command :
    (stack : Bytes) (client_sock : ℕ) → Request → (left command : Bytes) → Action Turn
run_command stack client_sock r left command =
    if same command (codes "GET")
    then with_path r.remote.token (λ path. get_command client_sock path left)
    else if same command (codes "INFO")
    then with_path r.remote.token
        (λ path. (do perform_info_command client_sock path; pure (again left)))
    else if same command (codes "MD")
    then with_path r.remote.token (md_command stack client_sock)
    else if same command (codes "RM")
    then with_path r.remote.token (rm_command stack client_sock)
    else if same command (codes "PUT")
    then put_command stack client_sock r left
    else pure (exits minus_one)

-- `strcmp` of no command is a fault.
unfoldable pub run_message : (stack : Bytes) (client_sock : ℕ) (message : Bytes) → Action Turn
run_message stack client_sock message = elim (c_string message) [
  | none ↦ pure crashes
  | some s ↦
      let r = request_of s in
      elim r.command.token [
        | none ↦ pure crashes
        | some command ↦
            run_command stack client_sock r (left_of r (drop (length s) message)) command
      ]
]

-- The part of the loop from the call of `recv` on.
unfoldable pub take_request : (stack : Bytes) (client_sock : ℕ) (message : Bytes) → Action Turn
take_request stack client_sock message = do
  got ← recv_bytes client_sock buffer_size
  elim got [
    | none ↦ pure (exits minus_one)
    | some bytes ↦ run_message stack client_sock (overwrite bytes message)
  ]
