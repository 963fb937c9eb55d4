-- ===== src/Server/Sockets.antt =====
-- When the socket of a client is closed.
use computersystems_monorepo.Prelude.{
  ℕ, zero, suc, ◌≡◌, refl, arith, ◌==◌, Option, none, some, [], ◌∷◌, if◌then◌else◌, take, drop,
}
use computersystems_monorepo.Posix.{Bytes, Os, Trace, Action, File, close}
use computersystems_monorepo.CText.{Text}
use computersystems_monorepo.Server.{
  buffer_size, perform_info_command, write_both, copy, put_response, put_body, put_opened,
  put_remote, perform_put_command,
}

-- How often `close` was called on a descriptor. What `fclose` closes is not counted.
abbrev pub closes : (fd : ℕ) → Trace → ℕ
closes fd [] = 0
closes fd ((close d, a) ∷ h) = let before = closes fd h in if d == fd then suc before else before
closes fd (_ ∷ h) = closes fd h

-- An action that makes no call of `close` on `fd`.
abbrev pub Keeps : {A : Type 0} → (fd : ℕ) → Action A → Type 0
Keeps fd m = (os : Os) (h : Trace) → closes fd (m os h).1 ≡ closes fd h

module _ (fd : ℕ) where
  pub perform_info_command-Keeps :
      (sock : ℕ) (path : Bytes) → Keeps fd (perform_info_command sock path)
  unfolding perform_info_command
  perform_info_command-Keeps sock path os h = refl

  write_both-Keeps : (r₁ r₂ : ℕ) (bytes : Bytes) → Keeps fd (write_both r₁ r₂ bytes)
  unfolding write_both
  write_both-Keeps r₁ r₂ bytes os h = ground arith

  copy-Keeps : (fuel r₁ r₂ : ℕ) (rest : Bytes) → Keeps fd (copy fuel r₁ r₂ rest)
  unfolding copy
  copy-Keeps zero r₁ r₂ rest os h = refl
  copy-Keeps (suc fuel) r₁ r₂ [] os h = refl
  copy-Keeps (suc fuel) r₁ r₂ (c ∷ rest) os h =
      let head = take buffer_size (c ∷ rest) in
      ground (
        arith,
        write_both-Keeps r₁ r₂ head os h,
        copy-Keeps fuel r₁ r₂ (drop buffer_size (c ∷ rest)) os (write_both r₁ r₂ head os h).1,
      )

  put_response-Keeps : (sock : ℕ) (path : Bytes) → Keeps fd (put_response sock path)
  unfolding put_response
  put_response-Keeps sock path os h = ground arith

  put_body-Keeps :
      (stack : Bytes) (sock : ℕ) (path : Bytes) (file : File) (r₁ r₂ : ℕ)
      → Keeps fd (put_body stack sock path file r₁ r₂)
  unfolding put_body
  put_body-Keeps stack sock path file r₁ r₂ os h = grind (arith, put_response-Keeps, copy-Keeps)

  put_opened-Keeps :
      (stack : Bytes) (sock : ℕ) (path : Bytes) (file : File) (r₁ r₂ : Option ℕ)
      → Keeps fd (put_opened stack sock path file r₁ r₂)
  unfolding put_opened
  put_opened-Keeps stack sock path file (some r₁) (some r₂) os h =
      put_body-Keeps stack sock path file r₁ r₂ os h
  put_opened-Keeps stack sock path file (some r₁) none os h = refl
  put_opened-Keeps stack sock path file none (some r₂) os h = refl
  put_opened-Keeps stack sock path file none none os h = refl

  put_remote-Keeps :
      (stack : Bytes) (sock : ℕ) (remote : Text) (file : File)
      → Keeps fd (put_remote stack sock remote file)
  unfolding put_remote
  put_remote-Keeps stack sock remote file os h = grind (arith, put_opened-Keeps)

  pub perform_put_command-Keeps :
      (stack : Bytes) (sock : ℕ) (remote local : Option Text)
      → Keeps fd (perform_put_command stack sock remote local)
  unfolding perform_put_command
  perform_put_command-Keeps stack sock remote local os h = grind (arith, put_remote-Keeps)
