-- ===== src/FirstClient/Asks.antt =====
-- The client and the server of PracticumIIV2 together.
use computersystems_monorepo.Prelude.{
  ℕ, ◌-◌, ◌<◌, ◌≡◌, ◌∙◌, ap, refl, arith, false, ◌∷◌, ◌++◌, length, take,
}
use computersystems_monorepo.Posix.{Bytes, Os, Trace, recv, is_negative, minus_one}
use computersystems_monorepo.CText.{codes, same, zeros, overwrite}
use computersystems_monorepo.CText.Tokens.{HasNo, c_string-append, strtok-word}
use computersystems_monorepo.CText.Buffers.{first_message}
use computersystems_monorepo.Server.{buffer_size}
use computersystems_monorepo.Server.Dispatch.{exits}
use computersystems_monorepo.FirstServer.{run_command, run_message, take_request}
use computersystems_monorepo.FirstClient.{other_request}

module _ (sock : ℕ) (os : Os) (c : ℕ) (word : Bytes) (no_space : HasNo b' ' (c ∷ word))
    (no_get : same (c ∷ word) (codes "GET") ≡ false)
    (no_info : same (c ∷ word) (codes "INFO") ≡ false) where
  -- A first word that is neither GET nor INFO.
  message-unknown :
      (h : Trace) (rest tail : Bytes)
      → HasNo 0 (c ∷ word ++ b' ' ∷ rest)
      → run_message sock ((c ∷ word ++ b' ' ∷ rest) ++ 0 ∷ tail) os h ≡ (exits minus_one, h)
  unfolding run_message run_command
  message-unknown h rest tail no_nul =
      rw
        (
          c_string-append (c ∷ word ++ b' ' ∷ rest) tail no_nul,
          run_message,
          strtok-word c word no_space rest,
          run_command,
          no_get,
          no_info,
        )
        refl

  request-first :
      (h : Trace) (text : Bytes)
      → length text < buffer_size
      → is_negative (os h (recv sock buffer_size)).code ≡ false
      → (os h (recv sock buffer_size)).bytes ≡ text
      → take_request sock (zeros buffer_size) os h
        ≡ run_message sock
            (text ++ 0 ∷ zeros (buffer_size - length text - 1))
            os
            ((recv sock buffer_size, os h (recv sock buffer_size)) ∷ h)
  unfolding take_request
  request-first h text short works sent =
      let a = os h (recv sock buffer_size) in
      let h₁ = (recv sock buffer_size, a) ∷ h in
      let began : take_request sock (zeros buffer_size) os h
          ≡ run_message sock (overwrite (take buffer_size a.bytes) (zeros buffer_size)) os h₁ =
        ground arith in
      began ∙ ap (λ m. run_message sock m os h₁) (first_message buffer_size a.bytes text short sent)

  -- Whatever command without a space, other than GET and INFO, a client is started with, its request
  -- ends the server with -1, where it is the first message, has no NUL, fits and arrives in one piece.
  pub other_request-stops :
      (h : Trace) (remote local : Bytes)
      → HasNo 0 (other_request (c ∷ word) remote local)
      → length (other_request (c ∷ word) remote local) < buffer_size
      → is_negative (os h (recv sock buffer_size)).code ≡ false
      → (os h (recv sock buffer_size)).bytes ≡ other_request (c ∷ word) remote local
      → (take_request sock (zeros buffer_size) os h).0 ≡ exits minus_one
  other_request-stops h remote local no_nul short works sent =
      let text = other_request (c ∷ word) remote local in
      ap (λ r. r.0)
        (request-first h text short works sent
          ∙ message-unknown _ (remote ++ b' ' ∷ local) (zeros (buffer_size - length text - 1))
              no_nul)
