-- ===== src/Posix.antt =====
-- What the programs of PracticumII and PracticumIIV3 ask of the operating system. An `Os` answers every
-- call, and its answer may depend on all calls before: it is the parameter of the models of their
-- server.c and fgets.c. An `int` of 2 ^ 31 or more is negative. A count that a call returns is at most
-- what was asked for.
pub mod Sample
use computersystems_monorepo.Prelude.{
  ℕ, ◌-◌, ◌^◌, Bool, ◌==◌, leb, min, Option, none, some, List, ◌∷◌, if◌then◌else◌, length, take,
}

abbrev pub Bytes : Type 0
Bytes = List ℕ

-- What `stat` tells of a file; `modified` is the text that `ctime` makes of its time.
pub record Info : Type 0 where
  pub size : ℕ
  pub owner : ℕ
  pub group : ℕ
  pub mode : ℕ
  pub modified : Bytes
  pub is_regular : Bool
  pub is_directory : Bool

-- `code` is the return value, `bytes` what is read, and `error` the text of `errno`. For `fopen` of a
-- file to read, `bytes` is all that `fread` will give of it.
pub record Answer : Type 0 where
  pub code : ℕ
  pub bytes : Bytes
  pub info : Info
  pub error : Bytes

pub data Call : Type 0 where
  socket bind listen accept connect pthread_create pthread_detach : Call
  recv read : ℕ → ℕ → Call
  send write fwrite : ℕ → Bytes → Call
  close fclose trylock unlock : ℕ → Call
  open_read open_write fopen_read fopen_write : Bytes → Call
  access stat mkdir unlink rmdir remove : Bytes → Call

-- The calls so far with their answers, the last one first.
abbrev pub Trace : Type 0
Trace = List (Call × Answer)

abbrev pub Os : Type 0
Os = Trace → Call → Answer

abbrev pub Action : Type 0 → Type 0
Action A = Os → Trace → A × Trace

abbrev pub pure : {A : Type 0} → A → Action A
pure a os h = (a, h)

infixl 5 ◌>>=◌ ◌>>◌
abbrev pub ◌>>=◌ : {A B : Type 0} → Action A → (A → Action B) → Action B
◌>>=◌ m next os h = let (a, h') = m os h in next a os h'

abbrev pub ◌>>◌ : {A B : Type 0} → Action A → Action B → Action B
◌>>◌ m next = m >>= λ _. next

abbrev pub ask : Call → Action Answer
ask c os h = let a = os h c in (a, (c, a) ∷ h)

abbrev pub is_negative : ℕ → Bool
is_negative code = leb (2 ^ 31) code

-- The call, and whether it returned a negative number.
abbrev pub fails : Call → Action Bool
fails c = do a ← ask c; pure (is_negative a.code)

-- The call, and whether it returned 0.
abbrev pub gives_zero : Call → Action Bool
gives_zero c = do a ← ask c; pure (a.code == 0)

-- The descriptor, which may be negative.
abbrev pub descriptor : Call → Action ℕ
descriptor c = do a ← ask c; pure a.code

-- `fopen` for writing: NULL or a stream.
abbrev pub fopen_to_write : Bytes → Action (Option ℕ)
fopen_to_write path = do
  a ← ask (fopen_write path)
  pure (if a.code == 0 then none else some a.code)

-- A stream to read, with what `fread` has still to give.
pub record File : Type 0 where
  pub stream : ℕ
  pub rest : Bytes

abbrev pub fopen_to_read : Bytes → Action (Option File)
fopen_to_read path = do
  a ← ask (fopen_read path)
  pure (if a.code == 0 then none else some (record { stream = a.code; rest = a.bytes }))

-- What `recv` and `read` deliver of at most `n` bytes; `none` is a negative return value.
abbrev pub recv_bytes : (sock n : ℕ) → Action (Option Bytes)
recv_bytes sock n = do
  a ← ask (recv sock n)
  pure (if is_negative a.code then none else some (take n a.bytes))

abbrev pub read_bytes : (fd n : ℕ) → Action (Option Bytes)
read_bytes fd n = do
  a ← ask (read fd n)
  pure (if is_negative a.code then none else some (take n a.bytes))

-- How many bytes were sent or written.
abbrev pub send_bytes : (sock : ℕ) → Bytes → Action (Option ℕ)
send_bytes sock bytes = do
  a ← ask (send sock bytes)
  pure (if is_negative a.code then none else some (min a.code (length bytes)))

abbrev pub fwrite_bytes : (stream : ℕ) → Bytes → Action ℕ
fwrite_bytes stream bytes = do a ← ask (fwrite stream bytes); pure (min a.code (length bytes))

-- `-1`.
abbrev pub minus_one : ℕ
minus_one = 2 ^ 32 - 1
