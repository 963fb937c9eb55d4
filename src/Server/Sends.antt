-- ===== src/Server/Sends.antt =====
-- What GET sends of a file.
use computersystems_monorepo.Prelude.{
  ℕ, zero, suc, ◌≤◌, ◌≡◌, ◌≢◌, ◌∙◌, ap, sym, refl, arith, true, false, ◌==◌, [], ◌∷◌, ◌++◌,
  if◌then◌else◌, length, take, drop, eq→==, length-drop, append-take-drop,
}
use mathlib.Core.List.{append_assoc, append-nil}
use computersystems_monorepo.Posix.{Bytes, Os, Trace, send, fopen_read, is_negative}
use computersystems_monorepo.Server.{buffer_size}
use computersystems_monorepo.Server.Dispatch.{send_file, get_command, again}

-- What was sent over a socket, in order.
abbrev pub handed_over : (sock : ℕ) → Trace → Bytes
handed_over sock [] = []
handed_over sock ((send s bytes, a) ∷ h) =
    let before = handed_over sock h in if s == sock then before ++ bytes else before
handed_over sock (_ ∷ h) = handed_over sock h

-- Every call of `send` gives a number that is not negative.
abbrev pub SendsAll : Os → Type 0
SendsAll os =
    (h : Trace) (sock : ℕ) (bytes : Bytes) → is_negative (os h (send sock bytes)).code ≡ false

module _ (os : Os) (works : SendsAll os) (sock : ℕ) where
  send_step :
      (fuel c : ℕ) (rest : Bytes) (h : Trace)
      → let head = take buffer_size (c ∷ rest) in
        send_file (suc fuel) sock (c ∷ rest) os h
        ≡ send_file fuel sock
            (drop buffer_size (c ∷ rest))
            os
            ((send sock head, os h (send sock head)) ∷ h)
  unfolding send_file
  send_step fuel c rest h = ground (arith, works h sock (take buffer_size (c ∷ rest)))

  -- The loop hands the whole file to `send`.
  pub send_file-sends :
      (fuel : ℕ) (rest : Bytes) (h : Trace)
      → length rest ≤ fuel
      → ((send_file fuel sock rest os h).0 ≡ true)
        × (handed_over sock (send_file fuel sock rest os h).1 ≡ handed_over sock h ++ rest)
  unfolding send_file
  send_file-sends zero [] h enough = (refl, sym (append-nil _))
  send_file-sends zero (c ∷ rest) h enough = absurd (omega arith)
  send_file-sends (suc fuel) [] h enough = (refl, sym (append-nil _))
  send_file-sends (suc fuel) (c ∷ rest) h enough =
      let head = take buffer_size (c ∷ rest) in
      let tail = drop buffer_size (c ∷ rest) in
      let h₁ = (send sock head, os h (send sock head)) ∷ h in
      let (all, sent) =
        send_file-sends fuel tail h₁ (omega (arith, length-drop buffer_size (c ∷ rest))) in
      let step = send_step fuel c rest h in
      (
        ap (λ r. r.0) step ∙ all,
        ap (λ r. handed_over sock r.1) step
            ∙ sent
            ∙ rw (eq→== sock sock refl) (
                append_assoc _ head tail
                ∙ ap (λ x. handed_over sock h ++ x) (append-take-drop buffer_size (c ∷ rest))),
      )

-- Where the calls of `send` work and the file can be opened, GET hands the whole file to `send`, in its
-- order, and main goes on.
pub get_command-sends :
    (os : Os) (h : Trace) (sock : ℕ) (path left : Bytes)
    → SendsAll os
    → (os h (fopen_read path)).code ≢ 0
    → let r = get_command sock path left os h in
      (r.0 ≡ again left)
      × (handed_over sock r.1 ≡ handed_over sock h ++ (os h (fopen_read path)).bytes)
unfolding get_command
get_command-sends os h sock path left works opened =
    let a = os h (fopen_read path) in
    let h₁ = (fopen_read path, a) ∷ h in
    let (all, sent) = send_file-sends os works sock (length a.bytes) a.bytes h₁ (omega arith) in
    ground (arith, all, sent)
