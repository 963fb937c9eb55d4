-- ===== src/Polybius/RoundTrip.antt =====
-- `pbDecode` after `pbEncode`, and the room that both allocate.
use computersystems_monorepo.Prelude.{
  ℕ, ◌+◌, ◌-◌, ◌*◌, ◌/◌, ◌%◌, ◌≤◌, ◌<◌, ◌≡◌, ◌∙◌, ap, ◌⊎◌, refl, arith, true, ltb, ne→==, ◌==◌,
  if◌then◌else◌, none, some, List, [], ◌∷◌, find_from, find_from-some, length, Option-cases, inl,
  inr,
}
use computersystems_monorepo.Polybius.{
  table_width, cells, Table, to_upper, to_lower, is_digit, get_table_index, get_table_char,
  TextType, with_blank, no_blank, indices, print_index, print_indices, pb_encode, encode_room,
  decode_room, decode_chars, pb_decode, run_cipher,
}

-- The letters of the text that the table holds, in lower case.
abbrev pub kept : Table → List ℕ → List ℕ
kept table [] = []
kept table (c ∷ text) = elim (find_from table (to_upper c) 0 cells) [
  | some k ↦ to_lower (to_upper c) ∷ kept table text
  | none ↦ kept table text
]

cell_index : ℕ → ℕ
cell_index k = (k / table_width + 1) * 10 + (k % table_width + 1)

index_char :
    (table : Table) (k : ℕ) → k < 25 → get_table_char (cell_index k) table ≡ to_lower (table k)
unfolding get_table_char cell_index
index_char table k lt =
    let same : cell_index k / 10 * table_width + cell_index k % 10 - 6 ≡ k = omega arith in
    rw same refl

decode_blank :
    (table : Table) (text : List ℕ) → decode_chars table (32 ∷ text) ≡ decode_chars table text
unfolding decode_chars
decode_blank table [] = refl
decode_blank table (c ∷ text) = refl

module _ (table : Table) (index : ℕ) (low : 11 ≤ index) (high : index < 100) where
  -- Two digits of an index are read back as that index.
  decode_digits :
      (text : List ℕ)
      → decode_chars table ((48 + index / 10) ∷ (48 + index % 10) ∷ text)
        ≡ get_table_char index table ∷ decode_chars table text
  unfolding decode_chars
  decode_digits text =
      let num : (48 + index / 10 - 48) * 10 + (48 + index % 10 - 48) ≡ index = omega arith in
      let tens : is_digit (48 + index / 10) ≡ true = ground arith in
      let ones : is_digit (48 + index % 10) ≡ true = ground arith in
      let large : ltb 10 index ≡ true = ground arith in rw (tens, ones, num, large) refl

  decode_index :
      (type : TextType) (arr : List ℕ)
      → decode_chars table (print_indices type (index ∷ arr))
        ≡ get_table_char index table ∷ decode_chars table (print_indices type arr)
  unfolding print_indices print_index
  decode_index no_blank arr = decode_digits (print_indices no_blank arr)
  decode_index with_blank arr =
      decode_digits (32 ∷ print_indices with_blank arr)
      ∙ ap (λ l. get_table_char index table ∷ l) (decode_blank table (print_indices with_blank arr))

cell_index-low : (k : ℕ) → 11 ≤ cell_index k
unfolding cell_index
cell_index-low k = omega arith

cell_index-high : (k : ℕ) → k < 25 → cell_index k < 100
unfolding cell_index
cell_index-high k lt = omega arith

nothing :
    (table : Table) (type : TextType)
    → decode_chars table (print_indices type (indices table [])) ≡ []
unfolding decode_chars print_indices indices
nothing table type = refl

index_kept :
    (table : Table) (c : ℕ)
    → ((get_table_index c table ≡ 0) × (find_from table c 0 cells ≡ none))
      ⊎ ((k : ℕ) × (k < 25)
          × (table k ≡ c)
          × (get_table_index c table ≡ cell_index k)
          × (find_from table c 0 cells ≡ some k))
unfolding get_table_index cell_index
index_kept table c = elim (Option-cases (find_from table c 0 cells)) [
  | inl missing ↦ inl (rw (missing, get_table_index) refl, missing)
  | inr (k, found) ↦
      let (low, high, same) = find_from-some table c 0 cells k found in
      inr (k, omega (arith, high), same, rw (found, get_table_index) refl, found)
]

module _ (table : Table) (c : ℕ) (text : List ℕ) where
  pub kept-none :
      find_from table (to_upper c) 0 cells ≡ none → kept table (c ∷ text) ≡ kept table text
  kept-none e = rw (e, kept) refl

  pub kept-some :
      (k : ℕ)
      → find_from table (to_upper c) 0 cells ≡ some k
      → kept table (c ∷ text) ≡ to_lower (to_upper c) ∷ kept table text
  kept-some k e = rw (e, kept) refl

  indices_none :
      get_table_index (to_upper c) table ≡ 0 → indices table (c ∷ text) ≡ indices table text
  unfolding indices
  indices_none e = rw e refl

  indices_some :
      (k : ℕ)
      → get_table_index (to_upper c) table ≡ cell_index k
      → indices table (c ∷ text) ≡ cell_index k ∷ indices table text
  unfolding indices cell_index
  indices_some k e = rw (e, ne→== (cell_index k) 0 (λ z. omega arith)) refl

-- Decoding the code of a text gives the letters of the text that the table holds, in lower case, with
-- blanks in the code or without.
pub decode_chars-pb_encode :
    (table : Table) (type : TextType) (text : List ℕ)
    → decode_chars table (pb_encode table text type) ≡ kept table text
unfolding pb_encode
decode_chars-pb_encode table type [] = nothing table type
decode_chars-pb_encode table type (c ∷ text) = elim (index_kept table (to_upper c)) [
  | inl (zero_index, missing) ↦
      rw (indices_none table c text zero_index, kept-none table c text missing)
        (decode_chars-pb_encode table type text)
  | inr (k, lt, same, index, found) ↦
      rw (indices_some table c text k index, kept-some table c text k found)
        (decode_index table (cell_index k) (cell_index-low k) (cell_index-high k lt) type
            (indices table text)
          ∙ rw (index_char table k lt, same, decode_chars-pb_encode table type text) refl)
]

length-kept :
    (table : Table) (text : List ℕ) → length (kept table text) ≡ length (indices table text)
unfolding indices
length-kept table [] = refl
length-kept table (c ∷ text) = elim (index_kept table (to_upper c)) [
  | inl (zero_index, missing) ↦
      rw (indices_none table c text zero_index, kept-none table c text missing)
        (length-kept table text)
  | inr (k, lt, same, index, found) ↦
      rw (indices_some table c text k index, kept-some table c text k found)
        (omega (arith, length-kept table text))
]

blank_length : (arr : List ℕ) → length (print_indices with_blank arr) ≡ length arr * 3
unfolding print_indices print_index
blank_length [] = refl
blank_length (index ∷ arr) = omega (arith, blank_length arr)

close_length : (arr : List ℕ) → length (print_indices no_blank arr) ≡ length arr * 2
unfolding print_indices print_index
close_length [] = refl
close_length (index ∷ arr) = omega (arith, close_length arr)

-- The code fits what `pbEncode` allocates, with blanks and without, its NUL included.
pub pb_encode-room :
    (table : Table) (text : List ℕ) (type : TextType)
    → length (pb_encode table text type) < encode_room (length (indices table text))
unfolding pb_encode
pb_encode-room table text with_blank = omega (arith, blank_length (indices table text))
pb_encode-room table text no_blank = omega (arith, close_length (indices table text))

module _ (table : Table) (text : List ℕ) where
  -- A code with blanks leaves room for the letters and a NUL.
  pub pb_decode-blank : pb_decode table (pb_encode table text with_blank) ≡ some (kept table text)
  unfolding pb_decode pb_encode
  pb_decode-blank =
      let fits : ltb (length (kept table text)) (length (indices table text) * 3 / 3 + 1) ≡ true =
        ground (arith, length-kept table text) in
      rw (decode_chars-pb_encode table with_blank text, blank_length (indices table text), fits)
        refl

  -- A code without blanks leaves room for the NUL of the empty text only.
  pub pb_decode-close :
      pb_decode table (pb_encode table text no_blank)
      ≡ (if length (kept table text) == 0 then some (kept table text) else none)
  unfolding pb_decode pb_encode
  pb_decode-close =
      let n = length (kept table text) in
      let same : ltb n (length (indices table text) * 2 / 3 + 1) ≡ (n == 0) =
        ground (arith, length-kept table text) in
      rw (decode_chars-pb_encode table no_blank text, close_length (indices table text), same) refl

-- From 4 letters on, the text decoded from a code without blanks is written past its buffer.
pub decode_chars-overflow :
    (table : Table) (text : List ℕ)
    → 4 ≤ length (indices table text)
    → let close = pb_encode table text no_blank in
      decode_room (length close) < length (decode_chars table close)
unfolding pb_encode
decode_chars-overflow table text many =
    rw
      (
        decode_chars-pb_encode table no_blank text,
        close_length (indices table text),
        length-kept table text,
      )
      (omega (arith, many))

-- The program has a string to print as the result of a decryption only where the table holds no letter
-- of the text.
pub run_cipher-kept :
    (table : Table) (text1 text2 : List ℕ)
    → let r = run_cipher table text1 text2 in
      (r.parsetext1 ≡ (if length (kept table text1) == 0 then some (kept table text1) else none))
      × (r.parsetext2 ≡ (if length (kept table text2) == 0 then some (kept table text2) else none))
unfolding run_cipher
run_cipher-kept table text1 text2 = (pb_decode-close table text1, pb_decode-close table text2)
