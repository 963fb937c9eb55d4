-- ===== src/Client/Behind.antt =====
-- What stands behind the tests of PUT in PracticumIIV3/fgets.c: the file is offered to the server and
-- copied to the two devices.
use computersystems_monorepo.Prelude.{
  ℕ, zero, suc, ◌+◌, ◌%◌, ◌^◌, true, false, Bool, ltb, Option, none, some, [], ◌∷◌, ◌++◌,
  if◌then◌else◌, length, take, drop,
}
use computersystems_monorepo.Posix.{
  Bytes, Action, File, pure, ◌>>=◌, ◌>>◌, ask, fails, fopen_to_read, fopen_to_write, recv_bytes,
  fwrite_bytes, send, close, fclose, fwrite, minus_one,
}
use computersystems_monorepo.CText.{codes, same, signed, c_string, overwrite}
use computersystems_monorepo.Client.{buffer_size, End, exits, crashes}

-- `argv[1]`, which is "PUT" here, is the remote path, whatever `argc` is.
abbrev put_text : (file_size : ℕ) → Bytes
put_text file_size = codes "PUT PUT " ++ signed 32 (file_size % 2 ^ 32)

-- The two calls of `fwrite` in the loop, and whether the second device was short.
unfoldable pub write_pair : (fp1 fp2 : ℕ) → (file_data : Bytes) → Action (ℕ × ℕ × Bool)
write_pair fp1 fp2 file_data = do
  written1 ← fwrite_bytes fp1 file_data
  written2 ← fwrite_bytes fp2 file_data
  pure (written1, written2, ltb written2 (length file_data))

-- The loop over both devices; `some` is what is left of the file where the second device was short and
-- `fseek` went to `total_bytes`, which counts the bytes on both, and is taken not to overflow.
unfoldable pub copy_devices :
    ℕ → (fp1 fp2 total_bytes : ℕ) → (content rest : Bytes) → Action (Option Bytes)
copy_devices zero fp1 fp2 total_bytes content rest = pure none
copy_devices (suc fuel) fp1 fp2 total_bytes content [] = pure none
copy_devices (suc fuel) fp1 fp2 total_bytes content (c ∷ rest) = do
  (written1, written2, short) ← write_pair fp1 fp2 (take buffer_size (c ∷ rest))
  elim short [
    | true ↦ pure (some (drop (total_bytes + written1 + written2) content))
    | false ↦
        copy_devices fuel fp1 fp2 (total_bytes + written1) content (drop buffer_size (c ∷ rest))
  ]

-- The loop over the second device alone; what `fwrite` returns is not negative.
unfoldable pub copy_second : ℕ → (fp2 : ℕ) → (rest : Bytes) → Action (Unit {0})
copy_second zero fp2 rest = pure tt
copy_second (suc fuel) fp2 [] = pure tt
copy_second (suc fuel) fp2 (c ∷ rest) = do
  ask (fwrite fp2 (take buffer_size (c ∷ rest)))
  copy_second fuel fp2 (drop buffer_size (c ∷ rest))

-- The end of PUT, with the second device that is open then.
unfoldable pub finish : (socket_desc fp fp1 fp2 : ℕ) → Action End
finish socket_desc fp fp1 fp2 = do
  ask (fclose fp)
  ask (fclose fp1)
  ask (fclose fp2)
  got ← recv_bytes socket_desc buffer_size
  elim got [
    | none ↦ pure (exits minus_one)
    | some bytes ↦ do ask (close socket_desc); pure (exits 0)
  ]

-- The copying, and opening the second device again where it was short.
unfoldable pub write_devices : (socket_desc : ℕ) (file : File) (fp1 fp2 : ℕ) → Action End
write_devices socket_desc file fp1 fp2 = do
  short ← copy_devices (length file.rest) fp1 fp2 0 file.rest file.rest
  elim short [
    | none ↦ finish socket_desc file.stream fp1 fp2
    | some left ↦ do
      opened ← fopen_to_write (codes "/dev/sdc1")
      elim opened [
        | none ↦ pure (exits minus_one)
        | some again ↦ do
          copy_second (length left) again left
          finish socket_desc file.stream fp1 again
      ]
  ]

-- `response` is the array, of which `recv` wrote the start.
unfoldable pub on_response :
    (socket_desc : ℕ) (file : File) (fp1 fp2 : ℕ) (response : Bytes) → Action End
on_response socket_desc file fp1 fp2 response = elim (c_string response) [
  | none ↦ pure crashes
  | some text ↦
      if same text (codes "READY")
      then write_devices socket_desc file fp1 fp2
      else pure (exits minus_one)
]

-- `stack` is what the array `response` held.
unfoldable pub behind_tests :
    (stack : Bytes) (socket_desc : ℕ) (path : Bytes) (fp1 fp2 : ℕ) → Action End
behind_tests stack socket_desc path fp1 fp2 = do
  opened ← fopen_to_read path
  elim opened [
    | none ↦ pure (exits minus_one)
    | some file ↦ do
      not_sent ← fails (send socket_desc (put_text (length file.rest)))
      (if not_sent then pure (exits minus_one) else (do
        got ← recv_bytes socket_desc buffer_size
        elim got [
          | none ↦ pure (exits minus_one)
          | some bytes ↦ on_response socket_desc file fp1 fp2 (overwrite bytes stack)
        ]))
  ]
