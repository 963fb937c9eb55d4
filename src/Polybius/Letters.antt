-- ===== src/Polybius/Letters.antt =====
-- The cipher with a table that generateTable has made, whatever rand() returned.
use computersystems_monorepo.Prelude.{
  ℕ, ◌-◌, ◌<◌, ◌≡◌, ◌∙◌, sym, ap, refl, arith, Bool, true, false, not, ◌&&◌, ltb, leb, ◌==◌,
  if◌then◌else◌, Bool-cases, inl, inr, none, some, List, [], ◌∷◌, length, find_from, find_from-some,
  find_from-none, Option-cases,
}
use computersystems_monorepo.Polybius.{
  cells, Table, alphabet, to_upper, to_lower, Generator, generate_table, pb_encode, pb_decode,
  no_blank, with_blank,
}
use computersystems_monorepo.Polybius.Generate.{generate_table_lem}
use computersystems_monorepo.Polybius.RoundTrip.{
  kept, kept-none, kept-some, pb_decode-blank, pb_decode-close,
}

-- A letter other than J, in upper case.
abbrev is_letter : ℕ → Bool
is_letter c = leb 65 c && leb c 90 && not (c == 74)

-- The letters of a text but J, in lower case.
abbrev pub letters : List ℕ → List ℕ
letters [] = []
letters (c ∷ text) =
    let rest = letters text in if is_letter (to_upper c) then to_lower (to_upper c) ∷ rest else rest

-- The place of a letter in the alphabet.
abbrev place : ℕ → ℕ
place c = if ltb c 74 then c - 65 else c - 66

letter_place : (c : ℕ) → is_letter c ≡ true → (place c < 25) × (alphabet (place c) ≡ c)
letter_place c is = (ground arith, ground arith)

place_letter : (r : ℕ) → r < 25 → is_letter (alphabet r) ≡ true
place_letter r lt = ground arith

letters-letter :
    (c : ℕ) (text : List ℕ)
    → is_letter (to_upper c) ≡ true
    → letters (c ∷ text) ≡ to_lower (to_upper c) ∷ letters text
letters-letter c text is =
    ap (λ b. if b then to_lower (to_upper c) ∷ letters text else letters text) is

letters-other :
    (c : ℕ) (text : List ℕ) → is_letter (to_upper c) ≡ false → letters (c ∷ text) ≡ letters text
letters-other c text is =
    ap (λ b. if b then to_lower (to_upper c) ∷ letters text else letters text) is

module _ (rand : ℕ → ℕ) (fuel calls : ℕ) (heap : Table) (g : Generator)
    (made : generate_table rand fuel calls heap ≡ some g) where
  kept-letters : (text : List ℕ) → kept g.table text ≡ letters text
  kept-letters [] = refl
  kept-letters (c ∷ text) =
      let (distinct, every, only) = generate_table_lem rand fuel calls heap g made in
      let u = to_upper c in
      elim (Option-cases (find_from g.table u 0 cells)) [
        | inl missing ↦ elim (Bool-cases (is_letter u)) [
          | inl letter ↦
              let (lt, same) = letter_place u letter in
              let (k, below, holds) = every (place u) lt in
              absurd (find_from-none g.table u 0 cells k missing (omega arith) below (holds ∙ same))
          | inr other ↦
              kept-none g.table c text missing
              ∙ kept-letters text
              ∙ sym (letters-other c text other)
        ]
        | inr (k, found) ↦
            let (low, below, holds) = find_from-some g.table u 0 cells k found in
            let (r, lt, same) = only k below in
            let letter : is_letter u ≡ true = ap is_letter (sym holds ∙ same) ∙ place_letter r lt in
            kept-some g.table c text k found
            ∙ ap (λ rest. to_lower u ∷ rest) (kept-letters text)
            ∙ sym (letters-letter c text letter)
      ]

  -- Whatever rand returns, where generateTable returns, the code with blanks of any text is decoded to
  -- the letters of the text but J, in lower case and in their order, with room for the NUL, and the code
  -- without blanks to a string in its buffer only where the text has no such letter.
  pub decoded_letters :
      (text : List ℕ)
      → (pb_decode g.table (pb_encode g.table text with_blank) ≡ some (letters text))
        × (pb_decode g.table (pb_encode g.table text no_blank)
            ≡ (if length (letters text) == 0 then some (letters text) else none))
  decoded_letters text =
      let same = kept-letters text in
      (
        pb_decode-blank g.table text ∙ ap (λ l. some l) same,
        pb_decode-close g.table text ∙ ap (λ l. if length l == 0 then some l else none) same,
      )
