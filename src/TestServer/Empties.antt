-- ===== src/TestServer/Empties.antt =====
-- GET at this server: it opens the file for writing.
use computersystems_monorepo.Prelude.{
  ℕ, ◌-◌, ◌<◌, ◌≡◌, ◌≢◌, ◌∙◌, ap, refl, arith, false, ne→==, Option, none, some, List, map, ◌∷◌,
  ◌++◌, length, take, drop,
}
use computersystems_monorepo.Posix.{
  Bytes, Call, Action, pure, Os, Trace, recv, fopen_write, fclose, close, is_negative,
}
use computersystems_monorepo.CText.{codes, zeros, overwrite}
use computersystems_monorepo.CText.Tokens.{HasNo, c_string-append}
use computersystems_monorepo.CText.Buffers.{first_message}
use computersystems_monorepo.EarlyClient.{get_request}
use computersystems_monorepo.EarlyClient.Asks.{command-two_words, remote-two_words}
use computersystems_monorepo.Server.Dispatch.{request_of, left_of}
use computersystems_monorepo.TestServer.{
  bufsiz, Turn, again, crashes, with_path, get_command, run_command, run_message, take_request,
}

abbrev pub calls : Trace → List Call
calls h = map (λ c. c.0) h

module _ (stack response : Bytes) (sock : ℕ) (os : Os) (b : ℕ) (path : Bytes)
    (no_space : HasNo b' ' (b ∷ path)) (no_nul : HasNo 0 (b ∷ path)) where
  abbrev left : (tail : Bytes) → Bytes
  left tail =
      let text = get_request (b ∷ path) in
      left_of (request_of text) (drop (length text) (text ++ 0 ∷ tail))

  abbrev run_first : (tail : Bytes) → Option Bytes → Action Turn
  run_first tail none = pure crashes
  run_first tail (some word) =
      run_command stack sock (request_of (get_request (b ∷ path))) (left tail) response word

  message-get :
      (h : Trace) (tail : Bytes)
      → run_message stack sock (get_request (b ∷ path) ++ 0 ∷ tail) response os h
        ≡ get_command sock (b ∷ path) (left tail) response os h
  unfolding run_message run_command
  message-get h tail =
      let text = get_request (b ∷ path) in
      let began : run_message stack sock (text ++ 0 ∷ tail) response os h
          ≡ run_first tail (request_of text).command.token os h =
        rw (c_string-append text tail (ground (arith, no_nul)), run_message) refl in
      began
      ∙ ap (λ token. run_first tail token os h)
          (command-two_words b'G' b (codes "ET") path (ground arith) no_space)
      ∙ ap (λ token. with_path token (λ p. get_command sock p (left tail) response) os h)
          (remote-two_words b'G' b (codes "ET") path (ground arith) no_space)

  request-first :
      (h : Trace) (text : Bytes)
      → length text < bufsiz
      → is_negative (os h (recv sock bufsiz)).code ≡ false
      → (os h (recv sock bufsiz)).bytes ≡ text
      → take_request stack sock (zeros bufsiz) response os h
        ≡ run_message stack sock
            (text ++ 0 ∷ zeros (bufsiz - length text - 1))
            response
            os
            ((recv sock bufsiz, os h (recv sock bufsiz)) ∷ h)
  unfolding take_request
  request-first h text short works sent =
      let a = os h (recv sock bufsiz) in
      let h₁ = (recv sock bufsiz, a) ∷ h in
      let began : take_request stack sock (zeros bufsiz) response os h
          ≡ run_message stack sock (overwrite (take bufsiz a.bytes) (zeros bufsiz)) response os h₁ =
        ground arith in
      began
      ∙ ap (λ m. run_message stack sock m response os h₁)
          (first_message bufsiz a.bytes text short sent)

  command-empties :
      (h : Trace) (kept : Bytes)
      → let file = os h (fopen_write (b ∷ path)) in
        file.code ≢ 0
        → let r = get_command sock (b ∷ path) kept response os h in
          (r.0 ≡ again kept response)
          × (calls r.1 ≡ close sock ∷ fclose file.code ∷ fopen_write (b ∷ path) ∷ calls h)
  unfolding get_command
  command-empties h kept opened =
      let nonzero = ne→== (os h (fopen_write (b ∷ path))).code 0 opened in
      (ground arith, ground arith)

  -- The request that the clients send for GET of a path without a space or a NUL makes this server
  -- empty the file: where it is the first message and arrives in one piece, and the file can be opened,
  -- the server opens it for writing, closes it and the socket, sends nothing, and goes on.
  pub get_request-empties :
      (h : Trace)
      → length (get_request (b ∷ path)) < bufsiz
      → let a = os h (recv sock bufsiz) in
        let h₁ = (recv sock bufsiz, a) ∷ h in
        let file = os h₁ (fopen_write (b ∷ path)) in
        is_negative a.code ≡ false
        → a.bytes ≡ get_request (b ∷ path)
        → file.code ≢ 0
        → let r = take_request stack sock (zeros bufsiz) response os h in
          ((kept : Bytes) × (r.0 ≡ again kept response))
          × (calls r.1
              ≡ close sock ∷ fclose file.code ∷ fopen_write (b ∷ path) ∷ recv sock bufsiz ∷ calls h)
  get_request-empties h short came sent opened =
      let text = get_request (b ∷ path) in
      let h₁ = (recv sock bufsiz, os h (recv sock bufsiz)) ∷ h in
      let tail = zeros (bufsiz - length text - 1) in
      let whole = request-first h text short came sent ∙ message-get h₁ tail in
      let (goes_on, made) = command-empties h₁ (left tail) opened in
      ((left tail, ap (λ r. r.0) whole ∙ goes_on), ap (λ r. calls r.1) whole ∙ made)
