-- ===== src/Client/Asks.antt =====
-- The client and the server together: what the server makes of the text that the client sends.
use computersystems_monorepo.Prelude.{
  ℕ, ◌-◌, ◌<◌, ◌≡◌, ◌∙◌, ap, refl, arith, false, ◌∷◌, ◌++◌, length, take,
}
use computersystems_monorepo.Posix.{Bytes, Os, Trace, recv, is_negative, minus_one}
use computersystems_monorepo.CText.{codes, zeros, overwrite}
use computersystems_monorepo.CText.Buffers.{first_message}
use computersystems_monorepo.CText.Tokens.{HasNo, HasNo-append}
use computersystems_monorepo.Server.{buffer_size}
use computersystems_monorepo.Server.Dispatch.{exits, run_command, take_request, run_message}
use computersystems_monorepo.Server.Requests.{run_message-unknown}
use computersystems_monorepo.Client.{request_text}

-- The server has no command "File".
file-unknown :
    (stack : Bytes) (client_sock : ℕ) (os : Os) (h : Trace) (local tail : Bytes)
    → HasNo 0 local
    → run_message stack client_sock (request_text local ++ 0 ∷ tail) os h ≡ (exits minus_one, h)
unfolding run_command
file-unknown stack client_sock os h local tail no_nul =
    let end = codes " written to USB devices\n" in
    let whole : HasNo 0 (local ++ end) = HasNo-append 0 local end no_nul (omega arith) in
    run_message-unknown stack client_sock os h tail b'F' (codes "ile") (local ++ end)
      (ground (arith, whole)) (ground arith) (λ r left. refl)

took_request :
    (stack : Bytes) (client_sock : ℕ) (os : Os) (h : Trace) (message : Bytes)
    → let a = os h (recv client_sock buffer_size) in
      is_negative a.code ≡ false
      → take_request stack client_sock message os h
        ≡ run_message stack client_sock
            (overwrite (take buffer_size a.bytes) message)
            os
            ((recv client_sock buffer_size, a) ∷ h)
unfolding take_request
took_request stack client_sock os h message works = ground arith

-- The first message, where it arrives in one piece.
pub took_first :
    (stack : Bytes) (client_sock : ℕ) (os : Os) (h : Trace) (text : Bytes)
    → length text < buffer_size
    → let a = os h (recv client_sock buffer_size) in
      is_negative a.code ≡ false
      → a.bytes ≡ text
      → take_request stack client_sock (zeros buffer_size) os h
        ≡ run_message stack client_sock
            (text ++ 0 ∷ zeros (buffer_size - length text - 1))
            os
            ((recv client_sock buffer_size, a) ∷ h)
took_first stack client_sock os h text short works sent =
    let h₁ = (recv client_sock buffer_size, os h (recv client_sock buffer_size)) ∷ h in
    took_request stack client_sock os h (zeros buffer_size) works
    ∙ ap (λ m. run_message stack client_sock m os h₁) (first_message buffer_size _ text short sent)

-- Whatever file a client names, the text that it sends in place of its request ends the server with
-- -1, where it arrives in one piece and is the first message.
pub request_text-stops :
    (stack : Bytes) (client_sock : ℕ) (os : Os) (h : Trace) (local : Bytes)
    → HasNo 0 local
    → length (request_text local) < buffer_size
    → is_negative (os h (recv client_sock buffer_size)).code ≡ false
    → (os h (recv client_sock buffer_size)).bytes ≡ request_text local
    → (take_request stack client_sock (zeros buffer_size) os h).0 ≡ exits minus_one
request_text-stops stack client_sock os h local no_nul short works sent =
    let text = request_text local in
    let h₁ = (recv client_sock buffer_size, os h (recv client_sock buffer_size)) ∷ h in
    ap (λ r. r.0)
      (took_first stack client_sock os h text short works sent
        ∙ file-unknown stack client_sock os h₁ local (zeros (buffer_size - length text - 1)) no_nul)
