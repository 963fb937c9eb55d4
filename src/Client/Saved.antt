-- ===== src/Client/Saved.antt =====
-- What the client saves of what the server sends.
use mathlib.Core.List.{append_assoc, append-nil}
use computersystems_monorepo.Prelude.{
  ℕ, zero, suc, ◌+◌, ◌-◌, ◌≤◌, ◌<◌, ◌≡◌, ◌∙◌, ap, refl, arith, true, false, ◌==◌, [], ◌∷◌, ◌++◌,
  if◌then◌else◌, length, take, List-cases, Bool-cases, inl, inr, eq→==, length-take, length-append,
}
use computersystems_monorepo.Posix.{Bytes, Os, Trace, Answer, recv, is_negative}
use computersystems_monorepo.Client.{buffer_size, Received, all, failed, out_of_fuel, recv_file}

-- What came from a socket, in order.
abbrev pub received : (sock : ℕ) → Trace → Bytes
received sock [] = []
received sock ((recv s n, a) ∷ h) =
    let before = received sock h in
    if s == sock then (if is_negative a.code then before else before ++ take n a.bytes) else before
received sock (_ ∷ h) = received sock h

-- The last call was one of `recv` that failed.
abbrev pub RecvFailed : (sock : ℕ) → Trace → Type 0
RecvFailed sock h' =
    (n : ℕ) × (a : Answer) × (h : Trace) × (h' ≡ (recv sock n, a) ∷ h) × (is_negative a.code ≡ true)

-- The loop ends, with an error of `recv`, or with all that came since `before`, which fits the buffer.
abbrev pub Collects : (sock : ℕ) → (before : Bytes) → Received × Trace → Type 0
Collects sock before (all bytes, h') =
    (length bytes ≤ buffer_size) × (received sock h' ≡ before ++ bytes)
Collects sock before (failed, h') = RecvFailed sock h'
Collects sock before (out_of_fuel, h') = ⊥

module _ (os : Os) (sock : ℕ) (got : Bytes) (h : Trace) where
  abbrev answer : Answer
  answer = os h (recv sock (buffer_size - length got))

  abbrev asked : Trace
  asked = (recv sock (buffer_size - length got), answer) ∷ h

  abbrev came : Bytes
  came = take (buffer_size - length got) answer.bytes

  recv_file-failed :
      (fuel : ℕ)
      → is_negative answer.code ≡ true
      → recv_file (suc fuel) sock got os h ≡ (failed, asked)
  unfolding recv_file
  recv_file-failed fuel e = ground arith

  recv_file-all :
      (fuel : ℕ)
      → is_negative answer.code ≡ false
      → came ≡ []
      → recv_file (suc fuel) sock got os h ≡ (all got, asked)
  unfolding recv_file
  recv_file-all fuel e none_left = ground arith

  recv_file-more :
      (fuel c : ℕ) (cs : Bytes)
      → is_negative answer.code ≡ false
      → came ≡ c ∷ cs
      → recv_file (suc fuel) sock got os h ≡ recv_file fuel sock (got ++ c ∷ cs) os asked
  unfolding recv_file
  recv_file-more fuel c cs e more = ground arith

  received-asked : is_negative answer.code ≡ false → received sock asked ≡ received sock h ++ came
  received-asked e = rw (eq→== sock sock refl, e) refl

-- With one call more than the buffer has room for, the loop ends.
pub recv_file-Collects :
    (os : Os) (sock fuel : ℕ) (before got : Bytes) (h : Trace)
    → received sock h ≡ before ++ got
    → length got ≤ buffer_size
    → buffer_size < length got + fuel
    → Collects sock before (recv_file fuel sock got os h)
recv_file-Collects os sock zero before got h since room enough = absurd (omega arith)
recv_file-Collects os sock (suc fuel) before got h since room enough =
    elim (Bool-cases (is_negative (answer os sock got h).code)) [
      | inl negative ↦
          rw (recv_file-failed os sock got h fuel negative)
            (buffer_size - length got, answer os sock got h, h, refl, negative)
      | inr ok_code ↦
          let longer = received-asked os sock got h ok_code in
          elim (List-cases (came os sock got h)) [
            | inl none_left ↦
                rw (recv_file-all os sock got h fuel ok_code none_left)
                  (room, longer ∙ rw (since, none_left) (append-nil _))
            | inr (c, cs, more) ↦
                let fits = length-take (buffer_size - length got) (answer os sock got h).bytes in
                let short : length (c ∷ cs) ≤ buffer_size - length got =
                  omega (arith, fits, ap length more) in
                rw (recv_file-more os sock got h fuel c cs ok_code more) (
                  recv_file-Collects os sock fuel before (got ++ c ∷ cs) (asked os sock got h)
                    (longer ∙ rw (since, more) (append_assoc before got (c ∷ cs)))
                    (omega (arith, length-append got (c ∷ cs), short))
                    (omega (arith, length-append got (c ∷ cs))))
          ]
    ]
