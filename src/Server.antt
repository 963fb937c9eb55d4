-- ===== src/Server.antt =====
-- The file server PracticumIIV3/server.c: perform_info_command and perform_put_command here, what main
-- does with a request in Server/Dispatch, the loop of main in Server/Serve, and client_handler in
-- Server/Handler. A `fault` is behaviour that C does not define: a NULL or a string without an end
-- where a string is wanted, or a write past an array.
pub mod Dispatch
pub mod Handler
pub mod Sends
pub mod Serve
pub mod Resources
pub mod Sockets
pub mod Waiting
pub mod Ends
pub mod Halts
pub mod Copies
pub mod Requests
pub mod Tests
use computersystems_monorepo.Prelude.{
  ℕ, zero, suc, ◌+◌, ◌*◌, ◌-◌, ◌^◌, Bool, true, false, not, ◌&&◌, ◌==◌, leb, ltb, Option, none,
  some, List, [], ◌∷◌, ◌++◌, if◌then◌else◌, length, take, drop, bit_and,
}
use computersystems_monorepo.Posix.{
  Bytes, Info, Action, File, pure, ◌>>=◌, ◌>>◌, ask, fopen_to_read, fopen_to_write, recv_bytes,
  fwrite_bytes, stat, send, fclose, is_negative, minus_one,
}
use computersystems_monorepo.CText.{codes, Text, strcat, behind_slash, overwrite, signed, octal}

abbrev pub buffer_size : ℕ
buffer_size = 8196

pub data Run (A : Type 0) : Type 0 where
  done : A → Run A
  fault : Run A
  out_of_fuel : Run A

-- The text that the two calls of `snprintf` make, without its limit.
unfoldable pub info_text : (path : Bytes) → Info → Bytes
info_text path i =
    codes "File name: "
    ++ path
    ++ codes "\nSize: "
    ++ signed 64 i.size
    ++ codes " bytes\nOwner: "
    ++ signed 32 i.owner
    ++ codes "\nGroup: "
    ++ signed 32 i.group
    ++ codes "\nPermissions: "
    ++ octal (bit_and i.mode 511)
    ++ codes "\nLast modified: "
    ++ i.modified

unfoldable pub perform_info_command : (client_sock : ℕ) → (path : Bytes) → Action (Unit {0})
perform_info_command client_sock path = do
  a ← ask (stat path)
  ask (
      send client_sock (
        take (buffer_size - 1) (
          if a.code == minus_one
          then codes "Error getting file information: " ++ a.error
          else info_text path a.info)))
  pure tt

-- The body of the loop that copies, and whether the loop goes on.
unfoldable pub write_both : (remote_file remote_file2 : ℕ) → Bytes → Action Bool
write_both remote_file remote_file2 bytes = do
  written ← fwrite_bytes remote_file bytes
  if written == length bytes
      then (do written2 ← fwrite_bytes remote_file2 bytes; pure (written2 == length bytes))
      else pure false

-- The loop that copies; `total_bytes_received` stays 0 in it.
unfoldable pub copy : ℕ → (remote_file remote_file2 : ℕ) → (rest : Bytes) → Action (Unit {0})
copy zero remote_file remote_file2 rest = pure tt
copy (suc fuel) remote_file remote_file2 [] = pure tt
copy (suc fuel) remote_file remote_file2 (c ∷ rest) =
    let more = copy fuel remote_file remote_file2 (drop buffer_size (c ∷ rest)) in
    do
      goes_on ← write_both remote_file remote_file2 (take buffer_size (c ∷ rest))
      if goes_on then more else pure tt

-- The `int` in four bytes.
abbrev pub int_of : Bytes → ℕ
int_of (b₀ ∷ b₁ ∷ b₂ ∷ b₃ ∷ _) = b₀ + 2 ^ 8 * b₁ + 2 ^ 16 * b₂ + 2 ^ 24 * b₃
int_of _ = 0

abbrev pub is_positive : ℕ → Bool
is_positive n = not (n == 0) && not (is_negative n)

abbrev pub close_three : (local_file remote_file remote_file2 : ℕ) → Action (Unit {0})
close_three local_file remote_file remote_file2 = do
  ask (fclose local_file)
  ask (fclose remote_file)
  ask (fclose remote_file2)
  pure tt

abbrev pub close_some : Option ℕ → Action (Unit {0})
close_some none = pure tt
close_some (some stream) = do ask (fclose stream); pure tt

unfoldable pub put_response : (client_sock : ℕ) → (remote_file_path : Bytes) → Action (Run Bool)
put_response client_sock remote_file_path =
    let response =
      codes "File " ++ remote_file_path ++ codes " created successfully on both USB devices\n" in
    if ltb (length response) buffer_size
    then (do ask (send client_sock response); pure (done true))
    else pure fault

-- `perform_put_command` from the call of `recv` on. `stack` is what `expected_file_size` held before.
unfoldable pub put_body :
    (stack : Bytes) (client_sock : ℕ) (path : Bytes) (local_file : File)
    (remote_file remote_file2 : ℕ)
    → Action (Run Bool)
put_body stack client_sock path local_file remote_file remote_file2 = do
  got ← recv_bytes client_sock 4
  elim got [
    | none ↦ do close_three local_file.stream remote_file remote_file2; pure (done true)
    | some bytes ↦ do
      (if is_positive (int_of (overwrite bytes stack))
          then copy (length local_file.rest) remote_file remote_file2 local_file.rest
          else pure tt)
      close_three local_file.stream remote_file remote_file2
      put_response client_sock path
  ]

-- `perform_put_command` where both calls of `fopen` for writing were made.
unfoldable pub put_opened :
    (stack : Bytes) (client_sock : ℕ) (path : Bytes) (local_file : File)
    (remote_file remote_file2 : Option ℕ)
    → Action (Run Bool)
put_opened stack client_sock path local_file (some remote_file) (some remote_file2) =
    put_body stack client_sock path local_file remote_file remote_file2
put_opened stack client_sock path local_file remote_file remote_file2 = do
  ask (fclose local_file.stream)
  close_some remote_file
  close_some remote_file2
  pure (done true)

-- Both names are made in the array of `remote`: the second call of `strcat` finds the first "1".
unfoldable pub put_remote :
    (stack : Bytes) (client_sock : ℕ) (remote : Text) (local_file : File) → Action (Run Bool)
put_remote stack client_sock remote local_file = elim (strcat remote (codes "1")) [
  | none ↦ pure fault
  | some name ↦ do
    remote_file ← fopen_to_write name.chars
    elim (strcat name (codes "2")) [
      | none ↦ pure fault
      | some name2 ↦ do
        remote_file2 ← fopen_to_write name2.chars
        put_opened stack client_sock name2.chars local_file remote_file remote_file2
    ]
]

-- Where no remote path was given, the name of the local file is taken, in the local path.
abbrev pub remote_name : Option Text → Text → Option Text
remote_name (some remote) local = some remote
remote_name none local = elim (behind_slash local.chars) [
  | none ↦ none
  | some name ↦ some (record { chars = name; room = local.room })
]

abbrev pub local_name : (remote local : Option Text) → Option Text
local_name remote (some local) = some local
local_name remote none = remote

-- The result is whether the name of the remote file was changed.
unfoldable pub perform_put_command :
    (stack : Bytes) (client_sock : ℕ) (remote local : Option Text) → Action (Run Bool)
perform_put_command stack client_sock remote local = elim (local_name remote local) [
  | none ↦ pure fault
  | some path ↦ do
    opened ← fopen_to_read path.chars
    elim opened [
      | none ↦ pure (done false)
      | some local_file ↦ elim (remote_name remote path) [
        | none ↦ do ask (fclose local_file.stream); pure (done false)
        | some name ↦ put_remote stack client_sock name local_file
      ]
    ]
]
