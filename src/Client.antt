-- ===== src/Client.antt =====
-- The client PracticumIIV3/fgets.c. A `crashes` is behaviour that C does not define: NULL where a
-- string is wanted, or a write past an array.
pub mod Behind
pub mod Devices
pub mod Main
pub mod Put
pub mod Saved
pub mod Stored
pub mod Asks
pub mod Tests
use computersystems_monorepo.Prelude.{
  ℕ, zero, suc, ◌+◌, ◌-◌, Bool, true, false, not, ◌&&◌, ◌||◌, ◌==◌, ltb, Option, none, some, List,
  [], ◌∷◌, ◌++◌, if◌then◌else◌, length, take, drop, bit_and,
}
use computersystems_monorepo.Posix.{
  Bytes, Info, Action, File, pure, ◌>>=◌, ◌>>◌, ask, fails, gives_zero, descriptor, fopen_to_read,
  fopen_to_write, recv_bytes, fwrite_bytes, stat, send, close, fclose, fwrite, mkdir, remove,
  socket, connect, is_negative, minus_one,
}
use computersystems_monorepo.CText.{codes, same, signed, octal}

abbrev pub buffer_size : ℕ
buffer_size = 8196

-- The end of the program.
pub data End : Type 0 where
  exits : ℕ → End
  crashes : End

-- The loop of `read_from_usb`; what `fwrite` returns is not looked at.
unfoldable pub copy_usb : ℕ → (stream : ℕ) → (rest : Bytes) → Action (Unit {0})
copy_usb zero stream rest = pure tt
copy_usb (suc fuel) stream [] = pure tt
copy_usb (suc fuel) stream (c ∷ rest) = do
  ask (fwrite stream (take 4096 (c ∷ rest)))
  copy_usb fuel stream (drop 4096 (c ∷ rest))

unfoldable pub read_from_usb : (usb_device file_path : Bytes) → Action (Unit {0})
read_from_usb usb_device file_path = do
  opened ← fopen_to_read usb_device
  elim opened [
    | none ↦ pure tt
    | some fp ↦ do
      made ← fopen_to_write file_path
      elim made [
        | none ↦ do ask (fclose fp.stream); pure tt
        | some f ↦ do
          copy_usb (length fp.rest) f fp.rest
          ask (fclose fp.stream)
          ask (fclose f)
          pure tt
      ]
  ]

-- The two threads of GET, in one of the orders in which they can run.
unfoldable pub get_files : (remote_file_path : Bytes) → Action (Unit {0})
get_files remote_file_path = do
  read_from_usb (codes "/dev/sdb1") remote_file_path
  read_from_usb (codes "/dev/sdc1") remote_file_path

-- `send` of a text that `sprintf` made in an array, `close`, and `return 0`.
unfoldable pub send_text : (sock : ℕ) → Bytes → Action End
send_text sock text =
    if ltb (length text) buffer_size
    then (do
      failed ← fails (send sock text)
      (if failed then pure (exits minus_one) else (do ask (close sock); pure (exits 0))))
    else pure crashes

unfoldable pub info_text : (path : Bytes) → Info → Bytes
info_text path i =
    codes "Filename: "
    ++ path
    ++ codes "\nSize: "
    ++ signed 64 i.size
    ++ codes " bytes\nOwner: "
    ++ signed 32 i.owner
    ++ codes "\nGroup: "
    ++ signed 32 i.group
    ++ codes "\nPermissions: "
    ++ octal (bit_and i.mode 511)
    ++ codes "\nLast modified: "
    ++ i.modified

unfoldable pub info_command : (socket_desc : ℕ) (remote_file_path : Bytes) → Action End
info_command socket_desc remote_file_path = do
  a ← ask (stat remote_file_path)
  if is_negative a.code
      then pure (exits minus_one)
      else send_text socket_desc (info_text remote_file_path a.info)

-- `client_sock` is never set.
unfoldable pub md_command : (client_sock : ℕ) (remote_file_path : Bytes) → Action End
md_command client_sock remote_file_path = do
  made ← gives_zero (mkdir remote_file_path)
  send_text client_sock (
      codes "MD "
      ++ remote_file_path
      ++ (if made
          then codes "Directory created successfully\n"
          else codes "Error creating directory\n"))

unfoldable pub rm_command : (client_sock : ℕ) (remote_file_path : Bytes) → Action End
rm_command client_sock remote_file_path = do
  gone ← gives_zero (remove remote_file_path)
  send_text client_sock (
      codes "RM "
      ++ remote_file_path
      ++ (if gone
          then codes "File or directory deleted successfully\n"
          else codes "Error deleting file or directory\n"))

abbrev pub is_open : Option ℕ → Bool
is_open none = false
is_open (some stream) = true

-- The test behind the two calls of `fopen`.
abbrev pub refuses : (fp1 fp2 : Option ℕ) → Bool
refuses fp1 fp2 =
    (not (is_open fp1) && not (is_open fp2))
    || (is_open fp1 && not (is_open fp2))
    || (not (is_open fp1) && is_open fp2)

-- `fp1 = NULL` stands where a test was meant. `behind` is what follows the second test.
unfoldable pub put_command : (behind : ℕ → ℕ → Action End) → Action End
put_command behind = do
  opened ← fopen_to_write (codes "/dev/sdb1")
  fp2 ← fopen_to_write (codes "/dev/sdc1")
  let fp1 : Option ℕ = none
  if refuses fp1 fp2 then pure (exits minus_one) else elim fp1 [
    | none ↦ pure crashes
    | some stream1 ↦ elim fp2 [ none ↦ pure crashes | some stream2 ↦ behind stream1 stream2 ]
  ]

-- What came from the server; the loop ended with 0, or with a negative number.
pub data Received : Type 0 where
  all : Bytes → Received
  failed : Received
  out_of_fuel : Received

unfoldable pub recv_file : ℕ → (socket_desc : ℕ) → (got : Bytes) → Action Received
recv_file zero socket_desc got = pure out_of_fuel
recv_file (suc fuel) socket_desc got = do
  more ← recv_bytes socket_desc (buffer_size - length got)
  elim more [
    | none ↦ pure failed
    | some bytes ↦ elim bytes [
      | [] ↦ pure (all got)
      | c ∷ cs ↦ recv_file fuel socket_desc (got ++ c ∷ cs)
    ]
  ]

-- `file_data[bytes_received] = '\0'`, where `bytes_received` is 0.
abbrev pub end_at_zero : Bytes → Bytes
end_at_zero [] = []
end_at_zero (c ∷ cs) = 0 ∷ cs

unfoldable pub save_file : (socket_desc : ℕ) (local_file_path file_data : Bytes) → Action End
save_file socket_desc local_file_path file_data = do
  opened ← fopen_to_write local_file_path
  elim opened [
    | none ↦ pure (exits minus_one)
    | some file ↦ do
      written ← fwrite_bytes file file_data
      (if ltb written (length file_data)
          then pure (exits minus_one)
          else (do ask (fclose file); ask (close socket_desc); pure (exits 0)))
  ]

unfoldable pub save_received : (socket_desc : ℕ) (local_file_path : Bytes) → Received → Action End
save_received socket_desc local_file_path (all bytes) =
    save_file socket_desc local_file_path (end_at_zero bytes)
save_received socket_desc local_file_path failed = pure (exits minus_one)
save_received socket_desc local_file_path out_of_fuel = pure crashes

-- The text that replaces the request.
abbrev pub request_text : (local_file_path : Bytes) → Bytes
request_text local_file_path = codes "File " ++ local_file_path ++ codes " written to USB devices\n"

-- The end of main, behind the branches.
unfoldable pub exchange : (socket_desc : ℕ) (local_file_path : Bytes) → Action End
exchange socket_desc local_file_path =
    if ltb (length (request_text local_file_path)) buffer_size
    then (do
      not_sent ← fails (send socket_desc (request_text local_file_path))
      (if not_sent then pure (exits minus_one) else (do
        received ← recv_file (buffer_size + 1) socket_desc []
        save_received socket_desc local_file_path received)))
    else pure crashes

abbrev pub with_local : Option Bytes → (Bytes → Action End) → Action End
with_local none next = pure crashes
with_local (some local_file_path) next = next local_file_path
