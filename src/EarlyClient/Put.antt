-- ===== src/EarlyClient/Put.antt =====
-- What PUT hands to `send`.
use mathlib.Core.List.{append-nil}
use computersystems_monorepo.Prelude.{
  ℕ, zero, suc, ◌≡◌, ◌≢◌, ◌∙◌, sym, ap, refl, arith, true, false, Bool-cases, inl, inr, some, [],
  ◌∷◌, ◌++◌, if◌then◌else◌, length, take, drop, eq→==,
}
use computersystems_monorepo.Posix.{
  Bytes, Os, Trace, Answer, Call, File, close, fclose, recv, send, fopen_read, is_negative,
  minus_one,
}
use computersystems_monorepo.CText.{codes, same, c_string, overwrite}
use computersystems_monorepo.Server.Dispatch
use computersystems_monorepo.Server.Sends.{SendsAll, handed_over, send_file-sends}
use computersystems_monorepo.Client.{buffer_size, exits}
use computersystems_monorepo.EarlyClient.{put_request, send_file, put_file, put_opened, put_command}

-- The loop is that of the server.
send_file-same :
    (fuel sock : ℕ) (rest : Bytes) (os : Os) (h : Trace)
    → send_file fuel sock rest os h ≡ Dispatch.send_file fuel sock rest os h
unfolding send_file Dispatch.send_file
send_file-same zero sock rest os h = refl
send_file-same (suc fuel) sock [] os h = refl
send_file-same (suc fuel) sock (c ∷ rest) os h =
    let call = send sock (take buffer_size (c ∷ rest)) in
    ground
      (arith, send_file-same fuel sock (drop buffer_size (c ∷ rest)) os ((call, os h call) ∷ h))

module _ (os : Os) (sock : ℕ) (file : File) (response text : Bytes) (h : Trace)
    (is : c_string response ≡ some text) where
  abbrev after_file : Trace
  after_file = (send_file (length file.rest) sock file.rest os h).1

  abbrev after_close : Trace
  after_close = (fclose file.stream, os after_file (fclose file.stream)) ∷ after_file

  put_file-ready :
      same text (codes "READY") ≡ true
      → (send_file (length file.rest) sock file.rest os h).0 ≡ true
      → put_file sock file response os h
        ≡ (exits 0, (close sock, os after_close (close sock)) ∷ after_close)
  unfolding put_file
  put_file-ready ready all = ground arith

  put_file-refused :
      same text (codes "READY") ≡ false → put_file sock file response os h ≡ (exits minus_one, h)
  unfolding put_file
  put_file-refused refused = ground arith

module _ (os : Os) (works : SendsAll os) (sock : ℕ) where
  -- What is sent and the code of the end, for the text that the server answers.
  put_file-sends :
      (file : File) (response text : Bytes) (h : Trace)
      → c_string response ≡ some text
      → let r = put_file sock file response os h in
        let ready = same text (codes "READY") in
        (r.0 ≡ exits (if ready then 0 else minus_one))
        × (handed_over sock r.1 ≡ handed_over sock h ++ (if ready then file.rest else []))
  put_file-sends file response text h is = elim (Bool-cases (same text (codes "READY"))) [
    | inl ready ↦
        let (all, sent) =
          send_file-sends os works sock (length file.rest) file.rest h (omega arith) in
        let loop = send_file-same (length file.rest) sock file.rest os h in
        let run = put_file-ready os sock file response text h is ready (ap (λ r. r.0) loop ∙ all) in
        rw ready (
          ap (λ r. r.0) run,
          ap (λ r. handed_over sock r.1) run ∙ ap (λ r. handed_over sock r.1) loop ∙ sent,
        )
    | inr refused ↦
        let run = put_file-refused os sock file response text h is refused in
        rw refused (ap (λ r. r.0) run, ap (λ r. handed_over sock r.1) run ∙ sym (append-nil _))
  ]

put_opened-asks :
    (os : Os) (stack : Bytes) (sock : ℕ) (file : File) (request : Bytes) (h : Trace)
    → SendsAll os
    → let h₁ = (send sock request, os h (send sock request)) ∷ h in
      let a = os h₁ (recv sock buffer_size) in
      is_negative a.code ≡ false
      → put_opened stack sock file request os h
        ≡ put_file sock file
            (overwrite (take buffer_size a.bytes) stack)
            os
            ((recv sock buffer_size, a) ∷ h₁)
unfolding put_opened
put_opened-asks os stack sock file request h works came = ground (arith, works h sock request)

-- The calls of PUT before it looks at the answer of the server.
module _ (os : Os) (h : Trace) (sock : ℕ) (path : Bytes) where
  abbrev pub opened : Answer
  opened = os h (fopen_read path)

  abbrev pub after_open : Trace
  after_open = (fopen_read path, opened) ∷ h

  abbrev pub asked : Call
  asked = send sock (put_request (length opened.bytes))

  abbrev pub after_send : Trace
  after_send = (asked, os after_open asked) ∷ after_open

  abbrev pub answered : Answer
  answered = os after_send (recv sock buffer_size)

  abbrev file : File
  file = record { stream = opened.code; rest = opened.bytes }

  put_command-opens :
      (stack : Bytes)
      → opened.code ≢ 0
      → put_command stack sock path os h
        ≡ put_opened stack sock file (put_request (length opened.bytes)) os after_open
  unfolding put_command
  put_command-opens stack there = ground arith

  put_command-asks :
      (stack : Bytes)
      → SendsAll os
      → opened.code ≢ 0
      → is_negative answered.code ≡ false
      → put_command stack sock path os h
        ≡ put_file sock file
            (overwrite (take buffer_size answered.bytes) stack)
            os
            ((recv sock buffer_size, answered) ∷ after_send)
  put_command-asks stack works there came =
      put_command-opens stack there
      ∙ put_opened-asks os stack sock file (put_request (length opened.bytes)) after_open works came

  handed-asked :
      handed_over sock after_send ≡ handed_over sock h ++ put_request (length opened.bytes)
  handed-asked = rw (eq→== sock sock refl) refl

-- Where the file can be opened, the calls of `send` work and the server answers with a text, PUT hands
-- the request to `send`, and then the whole file, and ends with 0, if that text is "READY", and
-- nothing, and ends with -1, if it is not.
pub put_command-sends :
    (os : Os) (stack : Bytes) (sock : ℕ) (path text : Bytes) (h : Trace)
    → SendsAll os
    → let file = opened os h sock path in
      let a = answered os h sock path in
      file.code ≢ 0
      → is_negative a.code ≡ false
      → c_string (overwrite (take buffer_size a.bytes) stack) ≡ some text
      → let r = put_command stack sock path os h in
        let ready = same text (codes "READY") in
        (r.0 ≡ exits (if ready then 0 else minus_one))
        × (handed_over sock r.1
            ≡ handed_over sock h
              ++ put_request (length file.bytes)
              ++ (if ready then file.bytes else []))
put_command-sends os stack sock path text h works there came is =
    let a = answered os h sock path in
    let h₁ = (recv sock buffer_size, a) ∷ after_send os h sock path in
    let response = overwrite (take buffer_size a.bytes) stack in
    let run = put_command-asks os h sock path stack works there came in
    let (code, sent) = put_file-sends os works sock (file os h sock path) response text h₁ is in
    (
      ap (λ r. r.0) run ∙ code,
      ap (λ r. handed_over sock r.1) run
          ∙ sent
          ∙ ap (λ b. b ++ (if same text (codes "READY") then (file os h sock path).rest else []))
              (handed-asked os h sock path),
    )
