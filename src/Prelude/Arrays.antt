-- ===== src/Prelude/Arrays.antt =====
-- A C array as a function of its index. A write changes one index; that the indices which a
-- program uses lie within the array's length is a theorem about the program.
use Prim.Native.Nat.{ℕ}
use computersystems_monorepo.Prelude.Tests.{◌==◌, if◌then◌else◌}

abbrev pub update {ℓ} : {A : Type ℓ} → (ℕ → A) → ℕ → A → ℕ → A
update f i a j = if i == j then a else f j
