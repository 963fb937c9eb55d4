-- ===== src/CText/Buffers.antt =====
-- A buffer that was cleared, with the first message in it.
use computersystems_monorepo.Prelude.{
  ℕ, zero, suc, ◌-◌, ◌≤◌, ◌<◌, ◌≡◌, ◌∙◌, ap, arith, refl, [], ◌∷◌, ◌++◌, length, take, drop,
}
use computersystems_monorepo.Posix.{Bytes}
use computersystems_monorepo.CText.{zeros, overwrite}

take-all : (n : ℕ) (s : Bytes) → length s ≤ n → take n s ≡ s
take-all zero [] h = refl
take-all zero (c ∷ s) h = absurd (omega arith)
take-all (suc n) [] h = refl
take-all (suc n) (c ∷ s) h = ap (λ x. c ∷ x) (take-all n s (omega arith))

drop-zeros : (n m : ℕ) → n < m → drop n (zeros m) ≡ 0 ∷ zeros (m - n - 1)
unfolding zeros
drop-zeros zero zero h = absurd (omega arith)
drop-zeros zero (suc m) h = ap (λ k. 0 ∷ zeros k) (omega arith)
drop-zeros (suc n) zero h = absurd (omega arith)
drop-zeros (suc n) (suc m) h = drop-zeros n m (omega arith) ∙ ap (λ k. 0 ∷ zeros k) (omega arith)

-- A message that arrives in one piece stands in the buffer with a NUL behind it.
pub first_message :
    (size : ℕ) (bytes text : Bytes)
    → length text < size
    → bytes ≡ text
    → overwrite (take size bytes) (zeros size) ≡ text ++ 0 ∷ zeros (size - length text - 1)
first_message size bytes text short sent =
    let all : take size bytes ≡ text =
      ap (take size) sent ∙ take-all size text (omega (arith, short)) in
    ap (λ b. overwrite b (zeros size)) all
    ∙ ap (λ t. text ++ t) (drop-zeros (length text) size short)
