-- ===== src/FirstServer/Later.antt =====
-- This server and the later one of PracticumII at the same clients and the same system.
use computersystems_monorepo.Prelude.{
  ℕ, zero, suc, true, ◌≡◌, refl, arith, none, some, ◌∷◌, Option-cases, inl, inr, Bool-cases, take,
  length, drop, Option,
}
use computersystems_monorepo.Posix.{
  Bytes, Action, Os, Trace, pure, socket, bind, listen, accept, recv, is_negative,
}
use computersystems_monorepo.CText.{codes, same, c_string, overwrite, zeros}
use computersystems_monorepo.Server.{buffer_size}
use computersystems_monorepo.Server.Dispatch.{
  Turn, again, exits, crashes, Request, request_of, left_of, run_command as later_command,
  run_message as later_message, take_request as later_request,
}
use computersystems_monorepo.EarlyServer.{
  serve_one as later_turn, serve as later_serve, run_main as later_main,
}
use computersystems_monorepo.FirstServer.{
  run_command, run_message, take_request, serve_one, serve, run_main,
}

-- Where the first run goes on, the second is the same.
abbrev pub GoesAlike : Turn × Trace → Turn × Trace → Type 0
GoesAlike (again message, h) r = r ≡ (again message, h)
GoesAlike (exits code, h) r = Unit
GoesAlike (crashes, h) r = Unit

alike_refl : (r : Turn × Trace) → GoesAlike r r
alike_refl (again message, h) = refl
alike_refl (exits code, h) = tt
alike_refl (crashes, h) = tt

module _ (stack : Bytes) (os : Os) where
  command-alike :
      (sock : ℕ) (r : Request) (left command : Bytes) (h : Trace)
      → GoesAlike
          (run_command sock r left command os h)
          (later_command stack sock r left command os h)
  unfolding run_command later_command
  command-alike sock r left command h = elim (Bool-cases (same command (codes "GET"))) [
    | inl get ↦ rw (get, run_command, later_command) (alike_refl _)
    | inr no_get ↦ elim (Bool-cases (same command (codes "INFO"))) [
      | inl info ↦ rw (no_get, info, run_command, later_command) (alike_refl _)
      | inr other ↦ rw (no_get, other, run_command) tt
    ]
  ]

  scanned-alike :
      (sock : ℕ) (message s : Bytes) (h : Trace) (token : Option Bytes)
      → let left = left_of (request_of s) (drop (length s) message) in
        GoesAlike
          ((elim token as (λ x. Action Turn) [
            | none ↦ pure crashes
            | some command ↦ run_command sock (request_of s) left command
          ])
            os h)
          ((elim token as (λ x. Action Turn) [
            | none ↦ pure crashes
            | some command ↦ later_command stack sock (request_of s) left command
          ])
            os h)
  scanned-alike sock message s h none = tt
  scanned-alike sock message s h (some command) =
      command-alike sock (request_of s) (left_of (request_of s) (drop (length s) message)) command h

  message-alike :
      (sock : ℕ) (message : Bytes) (h : Trace)
      → GoesAlike (run_message sock message os h) (later_message stack sock message os h)
  unfolding run_message later_message
  message-alike sock message h = elim (Option-cases (c_string message)) [
    | inl endless ↦ rw (endless, run_message) tt
    | inr (s, e) ↦
        rw (e, run_message, later_message)
          (scanned-alike sock message s h (request_of s).command.token)
  ]

  request-alike :
      (sock : ℕ) (message : Bytes) (h : Trace)
      → GoesAlike (take_request sock message os h) (later_request stack sock message os h)
  unfolding take_request later_request
  request-alike sock message h =
      let call = recv sock buffer_size in
      let a = os h call in
      ground
        (arith, message-alike sock (overwrite (take buffer_size a.bytes) message) ((call, a) ∷ h))

  turn-alike :
      (message : Bytes) (h : Trace)
      → GoesAlike (serve_one message os h) (later_turn stack message os h)
  unfolding serve_one later_turn
  turn-alike message h =
      let a = os h accept in
      elim (Bool-cases (is_negative a.code)) [
        | inl failed ↦ rw (failed, serve_one) tt
        | inr works ↦
            rw (works, serve_one, later_turn) (request-alike a.code message ((accept, a) ∷ h))
      ]

  behind_turn-alike :
      (turns : ℕ) (first second : Turn × Trace)
      → ((message : Bytes) (h : Trace)
          → GoesAlike (serve turns message os h) (later_serve turns stack message os h))
      → GoesAlike first second
      → GoesAlike
          ((elim first.0 as (λ x. Action Turn) [
            | again message' ↦ serve turns message'
            | exits code ↦ pure (exits code)
            | crashes ↦ pure crashes
          ])
            os first.1)
          ((elim second.0 as (λ x. Action Turn) [
            | again message' ↦ later_serve turns stack message'
            | exits code ↦ pure (exits code)
            | crashes ↦ pure crashes
          ])
            os second.1)
  behind_turn-alike turns (again message, h) second rest same = rw same (rest message h)
  behind_turn-alike turns (exits code, h) second rest same = tt
  behind_turn-alike turns (crashes, h) second rest same = tt

  serve-alike :
      (turns : ℕ) (message : Bytes) (h : Trace)
      → GoesAlike (serve turns message os h) (later_serve turns stack message os h)
  unfolding serve later_serve
  serve-alike zero message h = refl
  serve-alike (suc turns) message h =
      behind_turn-alike turns (serve_one message os h) (later_turn stack message os h)
        (serve-alike turns) (turn-alike message h)

  -- As long as this server goes on, at any clients and any system, the server of PracticumII does the
  -- same: it makes the same calls, in the same order, and has the same bytes in its buffer.
  pub run_main-alike :
      (turns : ℕ) (h : Trace)
      → GoesAlike (run_main true turns os h) (later_main true turns stack os h)
  unfolding run_main later_main
  run_main-alike turns h =
      let h₁ = (socket, os h socket) ∷ h in
      let h₂ = (bind, os h₁ bind) ∷ h₁ in
      let h₃ = (listen, os h₂ listen) ∷ h₂ in
      ground (arith, serve-alike turns (zeros buffer_size) h₃)
