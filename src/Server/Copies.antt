-- ===== src/Server/Copies.antt =====
-- What perform_put_command does with a file.
use computersystems_monorepo.Prelude.{
  ℕ, zero, suc, ◌-◌, ◌≤◌, ◌≡◌, ◌≢◌, ◌∙◌, ap, sym, refl, arith, true, false, ◌==◌, min, some, [],
  ◌∷◌, ◌++◌, if◌then◌else◌, length, take, drop, eq→==, ne→==, length-drop, append-take-drop,
}
use mathlib.Core.List.{append_assoc, append-nil}
use computersystems_monorepo.Posix.{
  Bytes, Os, Trace, Answer, File, fwrite, fopen_read, fopen_write, recv, is_negative,
}
use computersystems_monorepo.CText.{codes, overwrite, Text, strcat}
use computersystems_monorepo.Server.{
  buffer_size, write_both, copy, int_of, is_positive, put_response, put_body, put_remote,
  put_opened, perform_put_command,
}

-- What was written to a stream, in order.
abbrev pub written : (stream : ℕ) → Trace → Bytes
written stream [] = []
written stream ((fwrite s bytes, a) ∷ h) =
    let before = written stream h in if s == stream then before ++ bytes else before
written stream (_ ∷ h) = written stream h

-- Every call of `fwrite` writes all.
abbrev pub WritesAll : Os → Type 0
WritesAll os =
    (h : Trace) (stream : ℕ) (bytes : Bytes) → length bytes ≤ (os h (fwrite stream bytes)).code

module _ (os : Os) (complete : WritesAll os) (r₁ r₂ : ℕ) (ne : r₁ ≢ r₂) where
  abbrev both_written : Trace → Bytes → Trace
  both_written h bytes =
      let h₁ = (fwrite r₁ bytes, os h (fwrite r₁ bytes)) ∷ h in
      (fwrite r₂ bytes, os h₁ (fwrite r₂ bytes)) ∷ h₁

  write_both_complete :
      (h : Trace) (bytes : Bytes) → write_both r₁ r₂ bytes os h ≡ (true, both_written h bytes)
  unfolding write_both
  write_both_complete h bytes =
      let h₁ = (fwrite r₁ bytes, os h (fwrite r₁ bytes)) ∷ h in
      let one : min (os h (fwrite r₁ bytes)).code (length bytes) ≡ length bytes =
        omega (arith, complete h r₁ bytes) in
      let two : min (os h₁ (fwrite r₂ bytes)).code (length bytes) ≡ length bytes =
        omega (arith, complete h₁ r₂ bytes) in
      rw
        (
          one,
          eq→== (length bytes) (length bytes) refl,
          two,
          eq→== (length bytes) (length bytes) refl,
        )
        refl

  -- The loop writes the whole file to both streams.
  copy-written :
      (fuel : ℕ) (rest : Bytes) (h : Trace)
      → length rest ≤ fuel
      → (written r₁ (copy fuel r₁ r₂ rest os h).1 ≡ written r₁ h ++ rest)
        × (written r₂ (copy fuel r₁ r₂ rest os h).1 ≡ written r₂ h ++ rest)
  unfolding copy
  copy-written zero [] h enough = (sym (append-nil _), sym (append-nil _))
  copy-written zero (c ∷ rest) h enough = absurd (omega arith)
  copy-written (suc fuel) [] h enough = (sym (append-nil _), sym (append-nil _))
  copy-written (suc fuel) (c ∷ rest) h enough =
      let head = take buffer_size (c ∷ rest) in
      let tail = drop buffer_size (c ∷ rest) in
      let shorter : length tail ≤ fuel = omega (arith, length-drop buffer_size (c ∷ rest)) in
      let (one, two) = copy-written fuel tail (both_written h head) shorter in
      let whole : head ++ tail ≡ c ∷ rest = append-take-drop buffer_size (c ∷ rest) in
      rw (write_both_complete h head, copy)
        (
          one
              ∙ rw (eq→== r₁ r₁ refl, ne→== r₂ r₁ (λ e. ne (sym e)))
                  (append_assoc _ head tail ∙ ap (λ x. written r₁ h ++ x) whole),
          two
              ∙ rw (eq→== r₂ r₂ refl, ne→== r₁ r₂ ne)
                  (append_assoc _ head tail ∙ ap (λ x. written r₂ h ++ x) whole),
        )

module _ (os : Os) (complete : WritesAll os) (stack path : Bytes) (sock : ℕ) (file : File)
    (r₁ r₂ : ℕ) where
  -- Where the client sends a size above 0, both streams get the whole file, whatever the size is.
  put_body-written :
      (h : Trace)
      → r₁ ≢ r₂
      → let a = os h (recv sock 4) in
        is_negative a.code ≡ false
        → is_positive (int_of (overwrite (take 4 a.bytes) stack)) ≡ true
        → (written r₁ (put_body stack sock path file r₁ r₂ os h).1 ≡ written r₁ h ++ file.rest)
          × (written r₂ (put_body stack sock path file r₁ r₂ os h).1 ≡ written r₂ h ++ file.rest)
  unfolding put_body put_response
  put_body-written h ne came positive =
      let a = os h (recv sock 4) in
      let h₁ = (recv sock 4, a) ∷ h in
      let (one, two) =
        copy-written os complete r₁ r₂ ne (length file.rest) file.rest h₁ (omega arith) in
      ground (arith, one, two)

strcat-room :
    (text : Text) (more : Bytes)
    → length more ≤ text.room
    → strcat text more
      ≡ some (record { chars = text.chars ++ more; room = text.room - length more })
unfolding strcat
strcat-room text more room = ground arith

-- The calls of `perform_put_command` up to the loop, with what the system answers.
module _ (os : Os) (complete : WritesAll os) (stack : Bytes) (sock : ℕ) (remote local : Text)
    (h : Trace) where
  abbrev pub source : Answer
  source = os h (fopen_read local.chars)

  abbrev pub after_source : Trace
  after_source = (fopen_read local.chars, source) ∷ h

  abbrev pub name : Bytes
  name = remote.chars ++ codes "1"

  abbrev pub first : Answer
  first = os after_source (fopen_write name)

  abbrev pub after_first : Trace
  after_first = (fopen_write name, first) ∷ after_source

  abbrev pub second : Answer
  second = os after_first (fopen_write (name ++ codes "2"))

  abbrev pub after_second : Trace
  after_second = (fopen_write (name ++ codes "2"), second) ∷ after_first

  abbrev pub size_sent : Answer
  size_sent = os after_second (recv sock 4)

  abbrev local_file : File
  local_file = record { stream = source.code; rest = source.bytes }

  put_remote-body :
      2 ≤ remote.room
      → first.code ≢ 0
      → second.code ≢ 0
      → put_remote stack sock remote local_file os after_source
        ≡ put_body stack sock (name ++ codes "2") local_file first.code second.code os after_second
  unfolding put_remote put_opened
  put_remote-body room made made₂ = ground (
    arith,
    strcat-room remote (codes "1") (omega (arith, room)),
    strcat-room (record { chars = name; room = remote.room - 1 }) (codes "2") (omega (arith, room)),
  )

  perform_put_command-remote :
      source.code ≢ 0
      → perform_put_command stack sock (some remote) (some local) os h
        ≡ put_remote stack sock remote local_file os after_source
  unfolding perform_put_command
  perform_put_command-remote opened = ground arith

  abbrev put_copied : Trace
  put_copied = (perform_put_command stack sock (some remote) (some local) os h).1

  -- Where the files can be opened, all writes are complete and the client sends a size above 0, PUT
  -- writes the whole local file to the remote path with "1" behind it and to the path with "12" behind
  -- it, whatever the size is.
  pub perform_put_command-written :
      2 ≤ remote.room
      → source.code ≢ 0
      → first.code ≢ 0
      → second.code ≢ 0
      → first.code ≢ second.code
      → is_negative size_sent.code ≡ false
      → is_positive (int_of (overwrite (take 4 size_sent.bytes) stack)) ≡ true
      → (written first.code put_copied ≡ written first.code h ++ source.bytes)
        × (written second.code put_copied ≡ written second.code h ++ source.bytes)
  perform_put_command-written room opened made made₂ distinct came positive =
      let whole = perform_put_command-remote opened ∙ put_remote-body room made made₂ in
      let (one, two) =
        put_body-written os complete stack (name ++ codes "2") sock local_file first.code
          second.code after_second distinct came positive in
      (ap (λ r. written first.code r.1) whole ∙ one, ap (λ r. written second.code r.1) whole ∙ two)
