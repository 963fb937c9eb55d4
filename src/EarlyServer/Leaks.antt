-- ===== src/EarlyServer/Leaks.antt =====
-- The calls of close on the sockets of the clients over the turns of the loop.
use computersystems_monorepo.Prelude.{ℕ, zero, suc, true, ◌≡◌, ◌∙◌, refl, arith, ◌∷◌}
use computersystems_monorepo.Posix.{Bytes, Action, pure, socket, bind, listen, Os, Trace, accept}
use computersystems_monorepo.CText.{zeros}
use computersystems_monorepo.Server.{buffer_size}
use computersystems_monorepo.Server.Dispatch.{Turn, again, exits, crashes, take_request}
use computersystems_monorepo.Server.Sockets.{closes}
use computersystems_monorepo.Server.Waiting.{LeavesOpen, take_request-LeavesOpen}
use computersystems_monorepo.EarlyServer.{serve_one, serve, run_main}

LeavesOpen-start :
    (fd : ℕ) (h₀ h : Trace) (r : Turn × Trace)
    → closes fd h ≡ closes fd h₀
    → LeavesOpen fd h r
    → LeavesOpen fd h₀ r
LeavesOpen-start fd h₀ h (again message, h') same kept = kept ∙ same
LeavesOpen-start fd h₀ h (exits code, h') same kept = tt
LeavesOpen-start fd h₀ h (crashes, h') same kept = tt

-- What `serve` does behind a turn.
abbrev behind_turn : (turns : ℕ) → (stack : Bytes) → Turn → Action Turn
behind_turn turns stack (again message) = serve turns stack message
behind_turn turns stack (exits code) = pure (exits code)
behind_turn turns stack crashes = pure crashes

module _ (fd : ℕ) (os : Os) (stack : Bytes) where
  serve_one-LeavesOpen :
      (message : Bytes) (h : Trace) → LeavesOpen fd h (serve_one stack message os h)
  unfolding serve_one
  serve_one-LeavesOpen message h =
      let a = os h accept in
      let h₁ = (accept, a) ∷ h in
      ground (
        arith,
        LeavesOpen-start fd h h₁ (take_request stack a.code message os h₁) refl
            (take_request-LeavesOpen fd stack a.code message os h₁),
      )

  behind_turn-LeavesOpen :
      (turns : ℕ) (h : Trace) (r : Turn × Trace)
      → ((message : Bytes) (h' : Trace) → LeavesOpen fd h' (serve turns stack message os h'))
      → LeavesOpen fd h r
      → LeavesOpen fd h (behind_turn turns stack r.0 os r.1)
  behind_turn-LeavesOpen turns h (again message, h') rest first =
      LeavesOpen-start fd h h' (serve turns stack message os h') first (rest message h')
  behind_turn-LeavesOpen turns h (exits code, h') rest first = tt
  behind_turn-LeavesOpen turns h (crashes, h') rest first = tt

  serve-LeavesOpen :
      (turns : ℕ) (message : Bytes) (h : Trace) → LeavesOpen fd h (serve turns stack message os h)
  unfolding serve
  serve-LeavesOpen zero message h = refl
  serve-LeavesOpen (suc turns) message h =
      behind_turn-LeavesOpen turns h (serve_one stack message os h) (serve-LeavesOpen turns)
        (serve_one-LeavesOpen message h)

-- Where the loop of main still goes on after any number of turns, it has made no call of close, on a
-- socket that it has accepted or on any other descriptor, whatever the clients asked and the system
-- answered. The descriptors that fclose closes are not counted.
pub run_main-LeavesOpen :
    (fd : ℕ) (os : Os) (stack : Bytes) (turns : ℕ) (h : Trace)
    → LeavesOpen fd h (run_main true turns stack os h)
unfolding run_main
run_main-LeavesOpen fd os stack turns h =
    let h₁ = (socket, os h socket) ∷ h in
    let h₂ = (bind, os h₁ bind) ∷ h₁ in
    let h₃ = (listen, os h₂ listen) ∷ h₂ in
    let message = zeros buffer_size in
    ground (
      arith,
      LeavesOpen-start fd h h₃ (serve turns stack message os h₃) refl
          (serve-LeavesOpen fd os stack turns message h₃),
    )
