-- ===== src/Server/Requests.antt =====
-- What main makes of a message.
use mathlib.Core.List.{append_assoc, append-nil}
use computersystems_monorepo.Prelude.{
  ℕ, ◌+◌, ◌≡◌, ◌∙◌, ap, refl, arith, none, some, [], ◌∷◌, ◌++◌, length, length-append, drop, ne→==,
}
use computersystems_monorepo.Posix.{Bytes, Os, Trace, minus_one}
use computersystems_monorepo.CText.{c_string, overwrite, strtok}
use computersystems_monorepo.CText.Tokens.{
  HasNo, c_string-append, strtok-word, strtok-last, word_scan, last_scan,
}
use computersystems_monorepo.Server.Dispatch.{
  exits, Request, request_of, left_of, run_command, run_message,
}

-- Three words with a space between two of them are the command, the remote and the local path.
pub request_of-words :
    (a b c : ℕ) (command remote local : Bytes)
    → HasNo b' ' (a ∷ command)
    → HasNo b' ' (b ∷ remote)
    → HasNo b' ' (c ∷ local)
    → request_of (a ∷ command ++ (b' ' ∷ (b ∷ remote ++ b' ' ∷ c ∷ local))) ≡ record {
      command = word_scan (a ∷ command) (b ∷ remote ++ b' ' ∷ c ∷ local);
      remote = word_scan (b ∷ remote) (c ∷ local);
      local = last_scan (c ∷ local);
    }
request_of-words a b c command remote local ha hb hc =
    rw
      (
        strtok-word a command ha (b ∷ remote ++ b' ' ∷ c ∷ local),
        strtok-word b remote hb (c ∷ local),
        strtok-last c local hc,
      )
      refl

-- The string behind other characters.
c_string-behind :
    (b buffer s : Bytes)
    → HasNo 0 b
    → c_string buffer ≡ some s
    → c_string (b ++ buffer) ≡ some (b ++ s)
c_string-behind [] buffer s h e = e
c_string-behind (c ∷ b) buffer s (ne, h) e = rw (c_string-behind b buffer s h e, ne→== c 0 ne) refl

drop-prefix : (a b rest : Bytes) → length a ≡ length b → drop (length a) (b ++ rest) ≡ rest
drop-prefix [] [] rest e = refl
drop-prefix [] (c ∷ b) rest e = absurd (omega (arith, e))
drop-prefix (c ∷ a) [] rest e = absurd (omega (arith, e))
drop-prefix (c ∷ a) (d ∷ b) rest e = drop-prefix a b rest (omega (arith, e))

strtok-nil : strtok [] ≡ record { token = none; spaces = []; passed = []; rest = [] }
unfolding strtok
strtok-nil = refl

-- The buffer after a request of a command and a path.
left_of-words :
    (a b : ℕ) (command path tail : Bytes)
    → HasNo b' ' (a ∷ command)
    → HasNo b' ' (b ∷ path)
    → left_of (request_of (a ∷ command ++ b' ' ∷ b ∷ path)) (0 ∷ tail)
      ≡ (a ∷ command ++ 0 ∷ []) ++ ((b ∷ path) ++ 0 ∷ tail)
left_of-words a b command path tail ha hb =
    let first = a ∷ command ++ 0 ∷ [] in
    rw (strtok-word a command ha (b ∷ path), strtok-last b path hb, strtok-nil)
      (ap (λ x. x ++ 0 ∷ tail) {y = first ++ (b ∷ path)} (append-nil _ ∙ append-nil _)
        ∙ append_assoc first (b ∷ path) (0 ∷ tail))

-- After a request of a command and a path, a message as long as that command and the space behind it
-- is read with the old path at its end, since the buffer is not cleared and the message has no NUL.
pub stale_path :
    (a b : ℕ) (command path message tail : Bytes)
    → HasNo b' ' (a ∷ command)
    → HasNo b' ' (b ∷ path)
    → HasNo 0 (b ∷ path)
    → HasNo 0 message
    → length message ≡ length (a ∷ command) + 1
    → let left = left_of (request_of (a ∷ command ++ b' ' ∷ b ∷ path)) (0 ∷ tail) in
      c_string (overwrite message left) ≡ some (message ++ (b ∷ path))
stale_path a b command path message tail ha hb no_nul clean size =
    let first = a ∷ command ++ 0 ∷ [] in
    let behind = (b ∷ path) ++ 0 ∷ tail in
    let same_size : length message ≡ length first =
      omega (arith, size, length-append (a ∷ command) (0 ∷ [])) in
    ap (λ left. c_string (overwrite message left)) (left_of-words a b command path tail ha hb)
    ∙ ap (λ x. c_string (message ++ x)) (drop-prefix message first behind same_size)
    ∙ c_string-behind message behind (b ∷ path) clean (c_string-append (b ∷ path) tail no_nul)

module _ (stack : Bytes) (client_sock : ℕ) (os : Os) (h : Trace) (tail : Bytes) where
  -- A first word that is no command.
  pub run_message-unknown :
      (c : ℕ) (word rest : Bytes)
      → HasNo 0 (c ∷ word ++ b' ' ∷ rest)
      → HasNo b' ' (c ∷ word)
      → ((r : Request) (left : Bytes)
          → run_command stack client_sock r left (c ∷ word) os h ≡ (exits minus_one, h))
      → run_message stack client_sock ((c ∷ word ++ b' ' ∷ rest) ++ 0 ∷ tail) os h
        ≡ (exits minus_one, h)
  unfolding run_message
  run_message-unknown c word rest no_nul no_space unknown =
      rw
        (
          c_string-append (c ∷ word ++ b' ' ∷ rest) tail no_nul,
          run_message,
          strtok-word c word no_space rest,
        )
        (unknown _ _)
