-- ===== src/EarlyClient/Asks.antt =====
-- The client and the server of PracticumII together: what the server makes of what the client sends.
use computersystems_monorepo.Prelude.{
  ℕ, zero, suc, ◌+◌, ◌-◌, ◌/◌, ◌%◌, ◌^◌, ◌<◌, ◌≡◌, ◌≢◌, ◌∙◌, sym, ap, refl, arith, false, ltb, leb,
  Bool-cases, inl, inr, Option, none, some, [], ◌∷◌, ◌++◌, length, drop,
}
use computersystems_monorepo.Posix.{Bytes, Action, pure, Os, Trace, recv, fopen_read, is_negative}
use computersystems_monorepo.CText.{codes, zeros, digits, signed}
use computersystems_monorepo.CText.Tokens.{
  HasNo, HasNo-append, c_string-append, strtok-word, strtok-last,
}
use computersystems_monorepo.Server.{buffer_size}
use computersystems_monorepo.Server.Dispatch.{
  Turn, again, crashes, with_path, request_of, left_of, get_command, run_command, run_message,
  take_request,
}
use computersystems_monorepo.Server.Sends.{SendsAll, handed_over, get_command-sends}
use computersystems_monorepo.Server.Requests.{request_of-words}
use computersystems_monorepo.Client.Asks.{took_first}
use computersystems_monorepo.EarlyClient.{get_request, put_request}

-- A character and more, without a space.
abbrev IsWord : Bytes → Type 0
IsWord s = (c : ℕ) × (w : Bytes) × (s ≡ c ∷ w) × HasNo b' ' (c ∷ w)

append-IsWord : (s : Bytes) (x : ℕ) → HasNo b' ' s → x ≢ b' ' → IsWord (s ++ x ∷ [])
append-IsWord [] x no_space ne = (x, [], refl, (ne, tt))
append-IsWord (c ∷ s) x (first, no_space) ne =
    (c, s ++ x ∷ [], refl, (first, HasNo-append b' ' s (x ∷ []) no_space (ne, tt)))

digits-HasNo : (fuel n : ℕ) → HasNo b' ' (digits fuel 10 n)
digits-HasNo zero n = tt
digits-HasNo (suc fuel) n = elim (Bool-cases (ltb n 10)) [
  | inl small ↦ rw small (λ e. omega (arith, e), tt)
  | inr large ↦ rw large (
      HasNo-append b' ' (digits fuel 10 (n / 10)) _ (digits-HasNo fuel (n / 10))
        (λ e. omega (arith, e), tt))
]

digits-IsWord : (fuel n : ℕ) → IsWord (digits (suc fuel) 10 n)
digits-IsWord fuel n = elim (Bool-cases (ltb n 10)) [
  | inl small ↦ rw small (b'0' + n, [], refl, (λ e. omega (arith, e), tt))
  | inr large ↦ rw large (
      append-IsWord (digits fuel 10 (n / 10)) (b'0' + n % 10) (digits-HasNo fuel (n / 10))
        (λ e. omega (arith, e)))
]

signed-IsWord : (n : ℕ) → IsWord (signed 32 n)
unfolding signed
signed-IsWord n = elim (Bool-cases (leb (2 ^ 31) n)) [
  | inl negative ↦
      let n' = 2 ^ 32 - n in
      rw negative (b'-', digits 32 10 n', refl, (λ e. omega (arith, e), digits-HasNo 32 n'))
  | inr positive ↦ rw positive (digits-IsWord 31 n)
]

-- For every file, the server reads the request of PUT as one that names "PUT" as the remote path and
-- the size of the file as the path of the local file.
pub put_request-paths :
    (file_size : ℕ)
    → let r = request_of (put_request file_size) in
      (r.command.token ≡ some (codes "PUT"))
      × (r.remote.token ≡ some (codes "PUT"))
      × (r.local.token ≡ some (signed 32 (file_size % 2 ^ 32)))
put_request-paths file_size =
    let (c, w, is, no_space) = signed-IsWord (file_size % 2 ^ 32) in
    let words =
      request_of-words b'P' b'P' c (codes "UT") (codes "UT") w (ground arith) (ground arith)
        no_space in
    let reads = ap (λ d. request_of (codes "PUT " ++ (codes "PUT " ++ d))) is ∙ words in
    (
      ap (λ r. r.command.token) reads,
      ap (λ r. r.remote.token) reads,
      ap (λ r. r.local.token) reads ∙ ap some (sym is),
    )

-- A message of two words.
module _ (a b : ℕ) (command path : Bytes) (command_word : HasNo b' ' (a ∷ command))
    (path_word : HasNo b' ' (b ∷ path)) where
  abbrev two_words : Bytes
  two_words = a ∷ command ++ b' ' ∷ b ∷ path

  pub remote-two_words : (request_of two_words).remote.token ≡ some (b ∷ path)
  remote-two_words =
      rw (strtok-word a command command_word (b ∷ path), strtok-last b path path_word) refl

  pub command-two_words : (request_of two_words).command.token ≡ some (a ∷ command)
  command-two_words = rw (strtok-word a command command_word (b ∷ path)) refl

  module _ (stack : Bytes) (sock : ℕ) (os : Os) (h : Trace) (tail : Bytes) where
    abbrev left : Bytes
    left = left_of (request_of two_words) (drop (length two_words) (two_words ++ 0 ∷ tail))

    abbrev run_first : Option Bytes → Action Turn
    run_first none = pure crashes
    run_first (some word) = run_command stack sock (request_of two_words) left word

    run_message-two_words :
        HasNo 0 two_words
        → run_message stack sock (two_words ++ 0 ∷ tail) os h
          ≡ run_command stack sock (request_of two_words) left (a ∷ command) os h
    unfolding run_message
    run_message-two_words no_nul =
        ap
          (λ string.
            (elim string as (λ x. Action Turn) [
              | none ↦ pure crashes
              | some s ↦
                  let r = request_of s in
                  elim r.command.token as (λ x. Action Turn) [
                    | none ↦ pure crashes
                    | some word ↦
                        run_command stack sock r
                          (left_of r (drop (length s) (two_words ++ 0 ∷ tail))) word
                  ]
            ])
              os h)
          (c_string-append two_words tail no_nul)
        ∙ ap (λ word. run_first word os h) command-two_words

module _ (stack : Bytes) (sock : ℕ) (os : Os) (b : ℕ) (path : Bytes)
    (no_space : HasNo b' ' (b ∷ path)) (no_nul : HasNo 0 (b ∷ path)) where
  run_message-get :
      (h : Trace) (tail : Bytes)
      → (left : Bytes) × (run_message stack sock (get_request (b ∷ path) ++ 0 ∷ tail) os h
          ≡ get_command sock (b ∷ path) left os h)
  unfolding run_command
  run_message-get h tail =
      let text = get_request (b ∷ path) in
      let left = left_of (request_of text) (drop (length text) (text ++ 0 ∷ tail)) in
      (
        left,
        run_message-two_words b'G' b (codes "ET") path (ground arith) no_space stack sock os h tail
              (ground (arith, no_nul))
            ∙ ap (λ token. with_path token (λ p. get_command sock p left) os h)
                (remote-two_words b'G' b (codes "ET") path (ground arith) no_space),
      )

  -- What the server sends for GET of a path that is not empty and has no space and no NUL: where the
  -- request is shorter than the buffer, is the first one and arrives in one piece, the file that the
  -- client names can be opened and the calls of `send` work, it hands the whole file to `send`, in its
  -- order, and goes on.
  pub get_request-serves :
      (h : Trace)
      → SendsAll os
      → length (get_request (b ∷ path)) < buffer_size
      → let a = os h (recv sock buffer_size) in
        let h₁ = (recv sock buffer_size, a) ∷ h in
        let file = os h₁ (fopen_read (b ∷ path)) in
        is_negative a.code ≡ false
        → a.bytes ≡ get_request (b ∷ path)
        → file.code ≢ 0
        → let r = take_request stack sock (zeros buffer_size) os h in
          ((left : Bytes) × (r.0 ≡ again left))
          × (handed_over sock r.1 ≡ handed_over sock h ++ file.bytes)
  get_request-serves h works short came sent opened =
      let text = get_request (b ∷ path) in
      let h₁ = (recv sock buffer_size, os h (recv sock buffer_size)) ∷ h in
      let (left, run) = run_message-get h₁ (zeros (buffer_size - length text - 1)) in
      let whole = took_first stack sock os h text short came sent ∙ run in
      let (goes_on, handed) = get_command-sends os h₁ sock (b ∷ path) left works opened in
      ((left, ap (λ r. r.0) whole ∙ goes_on), ap (λ r. handed_over sock r.1) whole ∙ handed)
