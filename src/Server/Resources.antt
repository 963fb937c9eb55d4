-- ===== src/Server/Resources.antt =====
-- What a turn of main and a thread give back: mutexes, and the socket of the client.
use computersystems_monorepo.Prelude.{ℕ, suc, ◌+◌, ◌≡◌, arith, ◌==◌, [], ◌∷◌, if◌then◌else◌}
use computersystems_monorepo.Posix.{Bytes, Os, Trace, Action, trylock, unlock}
use computersystems_monorepo.Server.Serve.{
  check_devices, devices_missing, open_devices, write_devices, start_thread, then_next, after_gate,
  admit, Gate, passes, skips, stops,
}

-- How often a mutex was taken, and how often it was given back.
abbrev pub taken : (mutex : ℕ) → Trace → ℕ
taken mutex [] = 0
taken mutex ((trylock m, a) ∷ h) =
    let before = taken mutex h in
    if m == mutex then (if a.code == 0 then suc before else before) else before
taken mutex (_ ∷ h) = taken mutex h

abbrev pub given_back : (mutex : ℕ) → Trace → ℕ
given_back mutex [] = 0
given_back mutex ((unlock m, a) ∷ h) =
    let before = given_back mutex h in if m == mutex then suc before else before
given_back mutex (_ ∷ h) = given_back mutex h

-- As often taken as given back between two traces.
abbrev pub Balanced : (mutex : ℕ) → Trace → Trace → Type 0
Balanced mutex h h' = taken mutex h' + given_back mutex h ≡ taken mutex h + given_back mutex h'

module _ (mutex client_sock : ℕ) (os : Os) (h : Trace) where
  check_devices-Balanced : Balanced mutex h (check_devices client_sock os h).1
  unfolding check_devices devices_missing
  check_devices-Balanced = ground arith

  open_devices-Balanced : Balanced mutex h (open_devices client_sock os h).1
  unfolding open_devices
  open_devices-Balanced = ground arith

  start_thread-Balanced : Balanced mutex h (start_thread client_sock os h).1
  unfolding start_thread
  start_thread-Balanced = ground arith

  write_devices-Balanced :
      (buffer : Bytes) (fds : ℕ × ℕ) → Balanced mutex h (write_devices buffer fds os h).1
  unfolding write_devices
  write_devices-Balanced buffer fds = ground arith

module _ {A B : Type 0} (mutex : ℕ) (os : Os) (next : A → Action (Gate B))
    (rest : (a : A) (h : Trace) → Balanced mutex h (next a os h).1) where
  gate-Balanced :
      (h h₁ : Trace) (gate : Gate A)
      → Balanced mutex h h₁
      → Balanced mutex h (after_gate gate next os h₁).1
  gate-Balanced h h₁ (passes a) first = omega (arith, rest a h₁)
  gate-Balanced h h₁ skips first = first
  gate-Balanced h h₁ stops first = first

  then_next-Balanced :
      (first : Action (Gate A)) (h : Trace)
      → Balanced mutex h (first os h).1
      → Balanced mutex h (then_next first next os h).1
  then_next-Balanced first h balanced = gate-Balanced h (first os h).1 (first os h).0 balanced

-- On every way through the tests of the devices and the start of the thread, `continue` and `return`
-- included, each of the three mutexes is given back as often as it was taken.
pub admit-Balanced :
    (mutex client_sock : ℕ) (buffer : Bytes) (os : Os) (h : Trace)
    → Balanced mutex h (admit buffer client_sock os h).1
unfolding admit
admit-Balanced mutex client_sock buffer os h =
    then_next-Balanced mutex os _
      (λ _ h₁.
        then_next-Balanced mutex os _
          (λ fds h₂.
            then_next-Balanced mutex os _ (λ _ h₃. start_thread-Balanced mutex client_sock os h₃)
              (write_devices buffer fds) h₂
              (write_devices-Balanced mutex client_sock os h₂ buffer fds))
          (open_devices client_sock) h₁ (open_devices-Balanced mutex client_sock os h₁))
      (check_devices client_sock) h (check_devices-Balanced mutex client_sock os h)
