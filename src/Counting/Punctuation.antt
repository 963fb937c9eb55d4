-- ===== src/Counting/Punctuation.antt =====
-- The test of main on the first word, and what it puts in Multiprocessing2.txt.
use computersystems_monorepo.Prelude.{
  ℕ, Bool, false, ◌||◌, ◌==◌, List, [], ◌∷◌, if◌then◌else◌, length, ◌≡◌, refl, Bool-cases, inl, inr,
}
use computersystems_monorepo.Posix.{Bytes}
use computersystems_monorepo.Counting.Poem.{with_punctuation, without_punctuation, from_third}

-- `strchr` finds the character in a string.
abbrev strchr : (text : Bytes) → (c : ℕ) → Bool
strchr [] c = false
strchr (x ∷ text) c = (x == c) || strchr text c

abbrev has_punctuation : Bytes → Bool
has_punctuation text = strchr text b'!' || strchr text b'?' || strchr text b'.'

unfoldable pub second_file : (text1 : Bytes) → List Bytes
second_file text1 = if has_punctuation text1 then with_punctuation else without_punctuation

-- The file gets 24 sentences or 5.
second_file-length :
    (text1 : Bytes) → length (second_file text1) ≡ (if has_punctuation text1 then 24 else 5)
unfolding second_file with_punctuation without_punctuation from_third
second_file-length text1 = elim (Bool-cases (has_punctuation text1)) [
  | inl has ↦ rw has refl
  | inr lacks ↦ rw lacks refl
]
