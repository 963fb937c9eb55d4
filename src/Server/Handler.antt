-- ===== src/Server/Handler.antt =====
-- `client_handler` of PracticumIIV3/server.c, the thread that main makes for a client.
use computersystems_monorepo.Prelude.{
  ℕ, zero, suc, ◌+◌, ◌-◌, Bool, true, false, ltb, Option, none, some, [], ◌∷◌, ◌++◌, if◌then◌else◌,
  length, take, drop,
}
use computersystems_monorepo.Posix.{
  Bytes, Action, pure, ◌>>=◌, ◌>>◌, ask, descriptor, fopen_to_read, recv_bytes, read_bytes,
  send_bytes, send, close, open_read,
}
use computersystems_monorepo.CText.{codes, same, c_string, overwrite, Text}
use computersystems_monorepo.Server.{
  buffer_size, Run, done, fault, out_of_fuel, perform_info_command, perform_put_command,
}
use computersystems_monorepo.Server.Dispatch.{request_of}

-- `close` of the socket and `return NULL`.
abbrev pub hang_up : (client_sock : ℕ) → Action (Run (Unit {0}))
hang_up client_sock = do ask (close client_sock); pure (done tt)

-- The loop of `recv`: the whole buffer, or `none` where a call gave 0 or less.
unfoldable pub recv_all : ℕ → (client_sock : ℕ) → (got : Bytes) → Action (Run (Option Bytes))
recv_all zero client_sock got = pure out_of_fuel
recv_all (suc fuel) client_sock got = elim (ltb (length got) buffer_size) [
  | false ↦ pure (done (some got))
  | true ↦ do
    more ← recv_bytes client_sock (buffer_size - length got)
    elim more [
      | none ↦ pure (done none)
      | some bytes ↦ elim bytes [
        | [] ↦ pure (done none)
        | c ∷ cs ↦ recv_all fuel client_sock (got ++ c ∷ cs)
      ]
    ]
]

-- The loop of `send`: whether all bytes were sent.
unfoldable pub send_all : ℕ → (client_sock : ℕ) → (pending : Bytes) → Action (Run Bool)
send_all zero client_sock [] = pure (done true)
send_all zero client_sock (c ∷ cs) = pure out_of_fuel
send_all (suc fuel) client_sock [] = pure (done true)
send_all (suc fuel) client_sock (c ∷ cs) = do
  sent ← send_bytes client_sock (c ∷ cs)
  elim sent [ none ↦ pure (done false) | some n ↦ send_all fuel client_sock (drop n (c ∷ cs)) ]

abbrev pub half : ℕ
half = 4098

abbrev pub hang_up_all : (fd1 fd2 client_sock : ℕ) → Action (Run (Unit {0}))
hang_up_all fd1 fd2 client_sock = do ask (close fd1); ask (close fd2); hang_up client_sock

-- What is sent of the two reads: the buffer up to the sum of the two counts.
abbrev pub device_data : (message bytes1 bytes2 : Bytes) → Bytes
device_data message bytes1 bytes2 =
    let first = overwrite bytes1 message in
    take (length bytes1 + length bytes2) (take half first ++ overwrite bytes2 (drop half first))

-- GET from the two reads on.
unfoldable pub send_devices :
    ℕ → (fd1 fd2 client_sock : ℕ) → (message : Bytes) → Action (Run (Unit {0}))
send_devices fuel fd1 fd2 client_sock message = do
  read1 ← read_bytes fd1 half
  read2 ← read_bytes fd2 half
  elim read1 [
    | none ↦ hang_up_all fd1 fd2 client_sock
    | some bytes1 ↦ elim read2 [
      | none ↦ hang_up_all fd1 fd2 client_sock
      | some bytes2 ↦ do
        run ← send_all fuel client_sock (device_data message bytes1 bytes2)
        elim run [
          | done all ↦ if all then hang_up client_sock else hang_up_all fd1 fd2 client_sock
          | fault ↦ pure fault
          | out_of_fuel ↦ pure out_of_fuel
        ]
    ]
  ]

unfoldable pub get_devices :
    ℕ → (client_sock : ℕ) → (message path : Bytes) → Action (Run (Unit {0}))
get_devices fuel client_sock message path = do
  fd1 ← descriptor (open_read (codes "/dev/sdb1"))
  fd2 ← descriptor (open_read (codes "/dev/sdc1"))
  opened ← fopen_to_read path
  elim opened [
    | none ↦ hang_up client_sock
    | some file ↦ send_devices fuel fd1 fd2 client_sock message
  ]

-- A path in an array of its own.
abbrev pub array_of : Bytes → Text
array_of chars = record { chars = chars; room = buffer_size - (length chars + 1) }

-- The chain of tests on the command.
unfoldable pub handle_command :
    (fuel : ℕ) (stack : Bytes) (client_sock : ℕ) (message command remote local : Bytes)
    → Action (Run (Unit {0}))
handle_command fuel stack client_sock message command remote local =
    if same command (codes "INFO")
    then (do perform_info_command client_sock remote; hang_up client_sock)
    else if same command (codes "PUT")
    then (do
      run ← perform_put_command stack client_sock (some (array_of remote)) (some (array_of local))
      elim run [
        | done changed ↦ hang_up client_sock
        | fault ↦ pure fault
        | out_of_fuel ↦ pure out_of_fuel
      ])
    else if same command (codes "GET")
    then get_devices fuel client_sock message remote
    else (do
      ask (send client_sock (take (buffer_size - 1) (codes "Unknown command: " ++ command)))
      hang_up client_sock)

-- The three tokens of a message; one that is missing ends the call.
abbrev pub with_tokens :
    (command remote local : Option Bytes) (missing : Action (Run (Unit {0})))
    → (Bytes → Bytes → Bytes → Action (Run (Unit {0})))
    → Action (Run (Unit {0}))
with_tokens (some command) (some remote) (some local) missing next = next command remote local
with_tokens _ _ _ missing next = missing

-- From the copy of the message on.
unfoldable pub handle_text :
    (fuel : ℕ) (stack : Bytes) (client_sock : ℕ) (message : Bytes) → Action (Run (Unit {0}))
handle_text fuel stack client_sock message = elim (c_string message) [
  | none ↦ pure fault
  | some s ↦
      let r = request_of s in
      with_tokens r.command.token r.remote.token r.local.token (hang_up client_sock)
        (handle_command fuel stack client_sock message)
]

-- From the call of `read` on. `sscanf` before it reads the message, and its results are not used.
unfoldable pub handle_message :
    (fuel : ℕ) (stack : Bytes) (client_sock : ℕ) (message : Bytes) → Action (Run (Unit {0}))
handle_message fuel stack client_sock message = do
  second ← read_bytes client_sock buffer_size
  elim second [
    | none ↦ hang_up client_sock
    | some bytes ↦ handle_text fuel stack client_sock (overwrite bytes message)
  ]

-- What the loop of `recv` leads to.
unfoldable pub handle_received :
    (fuel : ℕ) (stack : Bytes) (client_sock : ℕ) → Run (Option Bytes) → Action (Run (Unit {0}))
handle_received fuel stack client_sock (done none) = hang_up client_sock
handle_received fuel stack client_sock (done (some message)) = elim (c_string message) [
  | none ↦ pure fault
  | some _ ↦ handle_message fuel stack client_sock message
]
handle_received fuel stack client_sock fault = pure fault
handle_received fuel stack client_sock out_of_fuel = pure out_of_fuel

unfoldable pub client_handler :
    (fuel : ℕ) (stack : Bytes) (client_sock : ℕ) → Action (Run (Unit {0}))
client_handler fuel stack client_sock = do
  received ← recv_all (buffer_size + 1) client_sock []
  handle_received fuel stack client_sock received
