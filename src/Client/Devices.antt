-- ===== src/Client/Devices.antt =====
-- What the loop behind the tests of PUT writes to the two devices.
use mathlib.Core.List.{append_assoc, append-nil}
use computersystems_monorepo.Prelude.{
  ℕ, zero, suc, ◌+◌, ◌≤◌, ◌≡◌, ◌≢◌, ◌∙◌, ap, sym, refl, arith, true, false, min, ltb, none, some,
  Bool, true, Option, [], ◌∷◌, ◌++◌, length, take, drop, eq→==, ne→==, length-drop,
  append-take-drop,
}
use computersystems_monorepo.Posix.{Bytes, Action, pure, Os, Trace, fwrite}
use computersystems_monorepo.Client.{buffer_size}
use computersystems_monorepo.Client.Behind.{write_pair, copy_devices}
use computersystems_monorepo.Server.Copies.{written, WritesAll}

not_below : (n : ℕ) → ltb n n ≡ false
not_below n = ground arith

module _ (os : Os) (complete : WritesAll os) (fp1 fp2 : ℕ) (content : Bytes) where
  abbrev both : Trace → Bytes → Trace
  both h bytes =
      let h₁ = (fwrite fp1 bytes, os h (fwrite fp1 bytes)) ∷ h in
      (fwrite fp2 bytes, os h₁ (fwrite fp2 bytes)) ∷ h₁

  write_pair_complete :
      (h : Trace) (bytes : Bytes)
      → write_pair fp1 fp2 bytes os h ≡ ((length bytes, length bytes, false), both h bytes)
  unfolding write_pair
  write_pair_complete h bytes =
      let h₁ = (fwrite fp1 bytes, os h (fwrite fp1 bytes)) ∷ h in
      let one : min (os h (fwrite fp1 bytes)).code (length bytes) ≡ length bytes =
        omega (arith, complete h fp1 bytes) in
      let two : min (os h₁ (fwrite fp2 bytes)).code (length bytes) ≡ length bytes =
        omega (arith, complete h₁ fp2 bytes) in
      rw (one, two, not_below (length bytes)) refl

  -- What the loop does behind the two writes.
  abbrev behind_pair : (fuel total c : ℕ) (rest : Bytes) → (ℕ × ℕ × Bool) → Action (Option Bytes)
  behind_pair fuel total c rest (written1, written2, true) =
      pure (some (drop (total + written1 + written2) content))
  behind_pair fuel total c rest (written1, written2, false) =
      copy_devices fuel fp1 fp2 (total + written1) content (drop buffer_size (c ∷ rest))

  copy_devices-step :
      (fuel total c : ℕ) (rest : Bytes) (h : Trace)
      → let head = take buffer_size (c ∷ rest) in
        copy_devices (suc fuel) fp1 fp2 total content (c ∷ rest) os h
        ≡ copy_devices fuel fp1 fp2
            (total + length head)
            content
            (drop buffer_size (c ∷ rest))
            os
            (both h head)
  unfolding copy_devices
  copy_devices-step fuel total c rest h =
      ap (λ r. behind_pair fuel total c rest r.0 os r.1)
        (write_pair_complete h (take buffer_size (c ∷ rest)))

  -- Where every write is complete, both devices get the whole file, and the loop ends without a short
  -- second device.
  pub copy_devices-written :
      (fuel total : ℕ) (rest : Bytes) (h : Trace)
      → fp1 ≢ fp2
      → length rest ≤ fuel
      → let r = copy_devices fuel fp1 fp2 total content rest os h in
        (r.0 ≡ none)
        × (written fp1 r.1 ≡ written fp1 h ++ rest)
        × (written fp2 r.1 ≡ written fp2 h ++ rest)
  unfolding copy_devices
  copy_devices-written zero total [] h ne enough = (refl, sym (append-nil _), sym (append-nil _))
  copy_devices-written zero total (c ∷ rest) h ne enough = absurd (omega arith)
  copy_devices-written (suc fuel) total [] h ne enough =
      (refl, sym (append-nil _), sym (append-nil _))
  copy_devices-written (suc fuel) total (c ∷ rest) h ne enough =
      let head = take buffer_size (c ∷ rest) in
      let tail = drop buffer_size (c ∷ rest) in
      let shorter : length tail ≤ fuel = omega (arith, length-drop buffer_size (c ∷ rest)) in
      let (ends, one, two) =
        copy_devices-written fuel (total + length head) tail (both h head) ne shorter in
      let whole : head ++ tail ≡ c ∷ rest = append-take-drop buffer_size (c ∷ rest) in
      let step = copy_devices-step fuel total c rest h in
      (
        ap (λ r. r.0) step ∙ ends,
        ap (λ r. written fp1 r.1) step
            ∙ one
            ∙ rw (eq→== fp1 fp1 refl, ne→== fp2 fp1 (λ e. ne (sym e)))
                (append_assoc _ head tail ∙ ap (λ x. written fp1 h ++ x) whole),
        ap (λ r. written fp2 r.1) step
            ∙ two
            ∙ rw (eq→== fp2 fp2 refl, ne→== fp1 fp2 ne)
                (append_assoc _ head tail ∙ ap (λ x. written fp2 h ++ x) whole),
      )
