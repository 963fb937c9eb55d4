-- ===== src/Polybius/Tests.antt =====
-- The cipher on a small text, and the theorems at it.
use computersystems_monorepo.Prelude.{
  ℕ, ◌+◌, ◌-◌, ◌%◌, ◌<◌, ◌≡◌, refl, arith, List, [], ◌∷◌, none, some, AreDistinct, find_from,
}
use computersystems_monorepo.Polybius.{
  Table, cells, alphabet, with_blank, no_blank, indices, pb_encode, decode_chars, pb_decode,
  get_table_index, get_table_char, run_cipher, print_index, print_indices,
}
use computersystems_monorepo.Polybius.Letters.{letters, decoded_letters}
use computersystems_monorepo.Polybius.RoundTrip.{run_cipher-kept}
use computersystems_monorepo.Polybius.Generate.{generate_table_lem, generate_table-ends, IsFair}

-- `rand` counts: the table then holds the letters in their order.
abbrev counter : ℕ → ℕ
counter n = n

counter-IsFair : IsFair counter 25
counter-IsFair n r lt = ((r + 25 - n % 25) % 25, omega arith, omega arith)

abbrev heap : Table
heap _ = 7

-- "Hi, J!", of which the table lacks all but the first two.
abbrev text : List ℕ
text = 72 ∷ 105 ∷ 44 ∷ 32 ∷ 74 ∷ 33 ∷ []

decoded_letters_example :
    let g = (generate_table-ends counter 25 0 heap counter-IsFair).0 in
    (pb_decode g.table (pb_encode g.table text with_blank) ≡ some (letters text))
    × (pb_decode g.table (pb_encode g.table text no_blank) ≡ none)
decoded_letters_example =
    decoded_letters counter 25 0 heap (generate_table-ends counter 25 0 heap counter-IsFair).0
      (generate_table-ends counter 25 0 heap counter-IsFair).1 text

generate_table_example :
    let g = (generate_table-ends counter 25 0 heap counter-IsFair).0 in
    AreDistinct g.table cells
    × ((r : ℕ) → r < 25 → (k : ℕ) × (k < cells) × (g.table k ≡ alphabet r))
    × ((k : ℕ) → k < cells → (r : ℕ) × (r < 25) × (g.table k ≡ alphabet r))
generate_table_example =
    generate_table_lem counter 25 0 heap (generate_table-ends counter 25 0 heap counter-IsFair).0
      (generate_table-ends counter 25 0 heap counter-IsFair).1

-- "Hi" is 2324 in the ordered table, and "23 24 " with blanks.
hi_code : pb_encode alphabet text no_blank ≡ 50 ∷ 51 ∷ 50 ∷ 52 ∷ []
unfolding pb_encode indices print_indices print_index get_table_index find_from
hi_code = refl

hi_blanks : pb_encode alphabet text with_blank ≡ 50 ∷ 51 ∷ 32 ∷ 50 ∷ 52 ∷ 32 ∷ []
unfolding pb_encode indices print_indices print_index get_table_index find_from
hi_blanks = refl

hi_text : pb_decode alphabet (50 ∷ 51 ∷ 32 ∷ 50 ∷ 52 ∷ 32 ∷ []) ≡ some (104 ∷ 105 ∷ [])
unfolding pb_decode decode_chars get_table_char
hi_text = refl

-- The program decodes "23242324" to 4 letters, for which it has 3 bytes.
hi_hi : pb_decode alphabet (50 ∷ 51 ∷ 50 ∷ 52 ∷ 50 ∷ 51 ∷ 50 ∷ 52 ∷ []) ≡ none
unfolding pb_decode decode_chars get_table_char
hi_hi = refl

ciphers_lost : (run_cipher alphabet text text).parsetext1 ≡ none
unfolding find_from
ciphers_lost = (run_cipher-kept alphabet text text).0
