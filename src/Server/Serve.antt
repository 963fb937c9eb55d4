-- ===== src/Server/Serve.antt =====
-- The loop of main in PracticumIIV3/server.c: the tests of the two devices under their mutexes, the
-- thread for the client, and then the request, which main takes from the same socket.
use computersystems_monorepo.Prelude.{ℕ, zero, suc, Bool, true, not, ◌&&◌, ◌==◌, if◌then◌else◌}
use computersystems_monorepo.Posix.{
  Bytes, Action, pure, ◌>>=◌, ◌>>◌, ask, fails, gives_zero, descriptor, access, trylock, unlock,
  accept, open_write, write, close, pthread_create, pthread_detach, socket, bind, listen,
  is_negative, minus_one,
}
use computersystems_monorepo.CText.{codes, zeros}
use computersystems_monorepo.Server.{buffer_size}
use computersystems_monorepo.Server.Dispatch.{Turn, again, exits, crashes, take_request}

abbrev pub usb_mutex : ℕ
usb_mutex = 0

abbrev pub fd_mutex : ℕ
fd_mutex = 1

abbrev pub socket_mutex : ℕ
socket_mutex = 2

abbrev pub sdb1 : Bytes
sdb1 = codes "/dev/sdb1"

abbrev pub sdc1 : Bytes
sdc1 = codes "/dev/sdc1"

-- What a part of the loop leads to: the next part, `continue`, or `return -1`.
pub data Gate (A : Type 0) : Type 0 where
  passes : A → Gate A
  skips : Gate A
  stops : Gate A

abbrev pub after_gate : {A B : Type 0} → Gate A → (A → Action (Gate B)) → Action (Gate B)
after_gate (passes a) next = next a
after_gate skips next = pure skips
after_gate stops next = pure stops

abbrev pub then_next : {A B : Type 0} → Action (Gate A) → (A → Action (Gate B)) → Action (Gate B)
then_next first next = do gate ← first; after_gate gate next

-- `continue`, with the socket closed.
abbrev pub skip : {A : Type 0} → (client_sock : ℕ) → Action (Gate A)
skip client_sock = do ask (close client_sock); pure skips

-- Either call of `access` gives -1; the second is made where the first did not.
unfoldable pub devices_missing : Action Bool
devices_missing = do
  one ← ask (access sdb1)
  if one.code == minus_one
      then pure true
      else (do two ← ask (access sdc1); pure (two.code == minus_one))

unfoldable pub check_devices : (client_sock : ℕ) → Action (Gate (Unit {0}))
check_devices client_sock = do
  locked ← gives_zero (trylock usb_mutex)
  if locked
      then (do
        missing ← devices_missing
        ask (unlock usb_mutex)
        (if missing then skip client_sock else pure (passes tt)))
      else skip client_sock

unfoldable pub open_devices : (client_sock : ℕ) → Action (Gate (ℕ × ℕ))
open_devices client_sock = do
  locked ← gives_zero (trylock fd_mutex)
  if locked
      then (do
        fd1 ← descriptor (open_write sdb1)
        fd2 ← descriptor (open_write sdc1)
        ask (unlock fd_mutex)
        pure (if not (is_negative fd1) && not (is_negative fd2) then passes (fd1, fd2) else stops))
      else skip client_sock

-- `buffer` is never set: its bytes are the parameter.
unfoldable pub write_devices : (buffer : Bytes) → ℕ × ℕ → Action (Gate (Unit {0}))
write_devices buffer (fd1, fd2) = do
  one ← ask (write fd1 buffer)
  two ← ask (write fd2 buffer)
  if (one.code == buffer_size) && (two.code == buffer_size)
      then (do ask (close fd1); ask (close fd2); pure (passes tt))
      else pure stops

unfoldable pub start_thread : (client_sock : ℕ) → Action (Gate (Unit {0}))
start_thread client_sock = do
  locked ← gives_zero (trylock socket_mutex)
  if locked
      then (do
        not_made ← fails pthread_create
        if not_made then (do ask (unlock socket_mutex); pure stops) else (do
          not_detached ← fails pthread_detach
          ask (unlock socket_mutex)
          pure (if not_detached then stops else passes tt)))
      else skip client_sock

unfoldable pub admit : (buffer : Bytes) → (client_sock : ℕ) → Action (Gate (Unit {0}))
admit buffer client_sock = then_next (check_devices client_sock) λ _.
    then_next (open_devices client_sock)
      λ fds. then_next (write_devices buffer fds) λ _. start_thread client_sock

-- One turn of the loop. `stack` is what the variables hold that are read before they are set.
unfoldable pub serve_one : (buffer stack message : Bytes) → Action Turn
serve_one buffer stack message = do
  client_sock ← descriptor accept
  if is_negative client_sock then pure (exits minus_one) else (do
    gate ← admit buffer client_sock
    elim gate [
      | passes _ ↦ take_request stack client_sock message
      | skips ↦ pure (again message)
      | stops ↦ pure (exits minus_one)
    ])

-- The first `turns` turns of the loop.
unfoldable pub serve : (turns : ℕ) (buffer stack message : Bytes) → Action Turn
serve zero buffer stack message = pure (again message)
serve (suc turns) buffer stack message = do
  turn ← serve_one buffer stack message
  elim turn [
    | again message' ↦ serve turns buffer stack message'
    | exits code ↦ pure (exits code)
    | crashes ↦ pure crashes
  ]

-- `main` up to the loop, and the loop; `client_message` was cleared by `memset`.
unfoldable pub run_main : (argc_is_two : Bool) (turns : ℕ) (buffer stack : Bytes) → Action Turn
run_main argc_is_two turns buffer stack = if not argc_is_two then pure (exits minus_one) else (do
  no_socket ← fails socket
  if no_socket then pure (exits minus_one) else (do
    not_bound ← fails bind
    if not_bound then pure (exits minus_one) else (do
      not_listening ← fails listen
      if not_listening
          then pure (exits minus_one)
          else serve turns buffer stack (zeros buffer_size))))
