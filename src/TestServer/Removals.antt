-- ===== src/TestServer/Removals.antt =====
-- The array `response` over requests for RM, which put their texts behind each other.
use computersystems_monorepo.Prelude.{
  ℕ, zero, suc, ◌+◌, ◌*◌, ◌<◌, ◌≡◌, sym, ap, subst, arith, ◌∷◌, ◌++◌, length, take, drop,
}
use computersystems_monorepo.Posix.{Bytes, Action, Os, Trace, pure, recv, accept}
use computersystems_monorepo.CText.{codes, overwrite}
use computersystems_monorepo.Server.{buffer_size}
use computersystems_monorepo.TestServer.Response.{IsLong, LeavesLong, message-LeavesLong}
use computersystems_monorepo.TestServer.{
  bufsiz, Turn, again, exits, crashes, out_of_bounds, run_message, take_request, serve_one, serve,
}

-- Every message that the clients send begins with "RM ".
abbrev pub AsksRemovals : Os → Type 0
AsksRemovals os =
    (h : Trace) (sock n : ℕ) → (rest : Bytes) × ((os h (recv sock n)).bytes ≡ codes "RM " ++ rest)

module _ (os : Os) (asks : AsksRemovals os) (stack : Bytes) where
  request-LeavesLong :
      (k sock : ℕ) (message response : Bytes) (h : Trace)
      → IsLong k response
      → LeavesLong (18 + k) (take_request stack sock message response os h)
  unfolding take_request
  request-LeavesLong k sock message response h long =
      let a = os h (recv sock bufsiz) in
      let h₁ = (recv sock bufsiz, a) ∷ h in
      let (rest, e) = asks h sock bufsiz in
      let all = take bufsiz a.bytes in
      let begins : overwrite all message
          ≡ codes "RM " ++ (take 8189 rest ++ drop (length all) message) =
        ap (λ b. take bufsiz b ++ drop (length all) message) e in
      ground (
        arith,
        subst (λ m. LeavesLong (18 + k) (run_message stack sock m response os h₁)) (sym begins)
            (message-LeavesLong os sock k stack (take 8189 rest ++ drop (length all) message)
              response h₁ long),
      )

  turn-LeavesLong :
      (k : ℕ) (message response : Bytes) (h : Trace)
      → IsLong k response
      → LeavesLong (18 + k) (serve_one stack message response os h)
  unfolding serve_one
  turn-LeavesLong k message response h long =
      let a = os h accept in
      ground (arith, request-LeavesLong k a.code message response ((accept, a) ∷ h) long)

  behind_turn-LeavesLong :
      (n k : ℕ) (r : Turn × Trace)
      → ((message response : Bytes) (h : Trace)
          → IsLong (18 + k) response
          → 18 + k < buffer_size
          → LeavesLong (18 * n + (18 + k)) (serve n stack message response os h))
      → LeavesLong (18 + k) r
      → LeavesLong (18 * n + (18 + k)) (
          (elim r.0 as (λ x. Action Turn) [
            | again message' response' ↦ serve n stack message' response'
            | exits code ↦ pure (exits code)
            | crashes ↦ pure crashes
            | out_of_bounds ↦ pure out_of_bounds
          ])
            os r.1)
  behind_turn-LeavesLong n k (again message response, h) rest (long, fits) =
      rest message response h long fits
  behind_turn-LeavesLong n k (exits code, h) rest kept = tt
  behind_turn-LeavesLong n k (crashes, h) rest kept = tt
  behind_turn-LeavesLong n k (out_of_bounds, h) rest kept = tt

  serve-LeavesLong :
      (n k : ℕ) (message response : Bytes) (h : Trace)
      → IsLong k response
      → k < buffer_size
      → LeavesLong (18 * n + k) (serve n stack message response os h)
  unfolding serve
  serve-LeavesLong zero k message response h long fits =
      subst (λ m. LeavesLong m (again message response, h)) (omega arith) (long, fits)
  serve-LeavesLong (suc n) k message response h long fits =
      subst (λ m. LeavesLong m (serve (suc n) stack message response os h)) (omega arith)
        (behind_turn-LeavesLong n k (serve_one stack message response os h)
          (serve-LeavesLong n (18 + k)) (turn-LeavesLong k message response h long))

  -- Where all that the clients send begins with "RM ", and the server has, behind some turns of its
  -- loop, not returned, used NULL, or gone past the end of one of its arrays, the string in `response`,
  -- if there is one, has 18 characters for each turn or more, and 18 for each turn are less than the
  -- 8196 bytes of the array: it takes 455 turns at most.
  pub removals_pile :
      (turns : ℕ) (message response : Bytes) (h : Trace)
      → LeavesLong (18 * turns) (serve turns stack message response os h)
  removals_pile turns message response h =
      subst (λ k. LeavesLong k (serve turns stack message response os h)) (omega arith)
        (serve-LeavesLong turns 0 message response h (λ s e. omega arith) (omega arith))
