-- ===== src/Polybius.antt =====
-- The Polybius cipher of A2/polybius.c (A5 and Trial hold the same file). A string is the list of its
-- bytes before the NUL, a table a function from cell numbers, `i * TABLE_WIDTH + j` for row `i` and
-- column `j`. What `rand()` returns on its `n`-th call is the parameter `rand`.
pub mod Generate
pub mod Letters
pub mod RoundTrip
pub mod Tests
use computersystems_monorepo.Prelude.{
  ℕ, zero, suc, ◌+◌, ◌-◌, ◌*◌, ◌/◌, ◌%◌, Bool, true, false, ◌&&◌, ltb, leb, ◌==◌, if◌then◌else◌,
  update, Option, none, some, List, [], ◌∷◌, ◌++◌, find_from, length,
}

abbrev pub table_width : ℕ
table_width = 5

abbrev pub cells : ℕ
cells = table_width * table_width

abbrev pub Table : Type 0
Table = ℕ → ℕ

-- `char tmp[] = ALPHABET`: the letters without J, and the NUL behind them.
abbrev pub alphabet : ℕ → ℕ
alphabet r = if ltb r 9 then r + 65 else if ltb r 25 then r + 66 else 0

unfoldable pub random_int : (ℕ → ℕ) → (min max n : ℕ) → ℕ
random_int rand min max n = rand n % max + min

-- The locals of `generateTable`, and how often `rand` was called.
pub record Generator : Type 0 where
  pub tmp : ℕ → ℕ
  pub table : Table
  pub calls : ℕ

-- The endless loop draws until it meets a letter that is left. The fuel bounds the draws.
unfoldable pub draw : (ℕ → ℕ) → (fuel k : ℕ) → Generator → Option Generator
draw rand zero k g = none
draw rand (suc fuel) k g =
    let r = random_int rand 0 25 g.calls in
    elim (g.tmp r == 0) [
      | true ↦ draw rand fuel k (record g { calls = g.calls + 1 })
      | false ↦ some (record {
        tmp = update g.tmp r 0;
        table = update g.table k (g.tmp r);
        calls = g.calls + 1;
      })
    ]

-- The two loops over rows and columns visit the cells in order.
unfoldable pub fill_cells : (ℕ → ℕ) → (fuel k n : ℕ) → Generator → Option Generator
fill_cells rand fuel k zero g = some g
fill_cells rand fuel k (suc n) g = elim (draw rand fuel k g) [
  | none ↦ none
  | some g' ↦ fill_cells rand fuel (k + 1) n g'
]

-- `malloc` leaves the table as it was.
unfoldable pub generate_table : (ℕ → ℕ) → (fuel calls : ℕ) → Table → Option Generator
generate_table rand fuel calls heap =
    fill_cells rand fuel 0 cells (record { tmp = alphabet; table = heap; calls = calls })

-- The `ctype.h` functions in the C locale.
abbrev pub to_upper : ℕ → ℕ
to_upper c = if leb 97 c && leb c 122 then c - 32 else c

abbrev pub to_lower : ℕ → ℕ
to_lower c = if leb 65 c && leb c 90 then c + 32 else c

abbrev pub is_digit : ℕ → Bool
is_digit c = leb 48 c && leb c 57

unfoldable pub get_table_index : (a : ℕ) → Table → ℕ
get_table_index a table = elim (find_from table a 0 cells) [
  | some k ↦ (k / table_width + 1) * 10 + (k % table_width + 1)
  | none ↦ 0
]

-- `(index / 10 - 1) * TABLE_WIDTH + (index % 10 - 1)` on `int`; from index 11 on it is not negative.
unfoldable pub get_table_char : (index : ℕ) → Table → ℕ
get_table_char index table = to_lower (table (index / 10 * table_width + index % 10 - 6))

pub data TextType : Type 0 where
  with_blank : TextType
  no_blank : TextType

-- The loop that collects the indices: what the table does not hold is left out.
unfoldable pub indices : Table → List ℕ → List ℕ
indices table [] = []
indices table (c ∷ plaintext) =
    let index = get_table_index (to_upper c) table in
    let rest = indices table plaintext in if index == 0 then rest else index ∷ rest

-- What `%d` and `%-3d` print of an index, which has two digits.
unfoldable pub print_index : TextType → ℕ → List ℕ
print_index no_blank index = (48 + index / 10) ∷ (48 + index % 10) ∷ []
print_index with_blank index = (48 + index / 10) ∷ (48 + index % 10) ∷ 32 ∷ []

unfoldable pub print_indices : TextType → List ℕ → List ℕ
print_indices type [] = []
print_indices type (index ∷ arr) = print_index type index ++ print_indices type arr

unfoldable pub pb_encode : Table → List ℕ → TextType → List ℕ
pb_encode table plaintext type = print_indices type (indices table plaintext)

-- The bytes that `pbEncode` and `pbDecode` allocate for their results, the NUL included.
abbrev pub encode_room : (count : ℕ) → ℕ
encode_room count = count * 3 + 1

abbrev pub decode_room : (len : ℕ) → ℕ
decode_room len = len / 3 + 1

-- What the loop writes to `result`: it takes two digits at once and passes any other byte by.
unfoldable pub decode_chars : Table → List ℕ → List ℕ
decode_chars table [] = []
decode_chars table (a ∷ []) = []
decode_chars table (a ∷ b ∷ ciphertext) =
    let behind = decode_chars table ciphertext in
    let next = decode_chars table (b ∷ ciphertext) in
    let num = (a - 48) * 10 + (b - 48) in
    if is_digit a && is_digit b
    then (if ltb 10 num then get_table_char num table ∷ behind else behind)
    else next

-- `result` is cleared before the loop; `none` is no string in it, because what was written fills it to
-- the end, or goes past it.
unfoldable pub pb_decode : Table → List ℕ → Option (List ℕ)
pb_decode table ciphertext =
    let result = decode_chars table ciphertext in
    if ltb (length result) (decode_room (length ciphertext)) then some result else none

-- What `main` of A2/cipher.c prints of the two texts it reads.
pub record Printed : Type 0 where
  pub ciphertext1 : List ℕ
  pub ciphertext2 : List ℕ
  pub parsetext1 : Option (List ℕ)
  pub parsetext2 : Option (List ℕ)

-- `main` of A2/cipher.c behind `generateTable` and `scanf`.
unfoldable pub run_cipher : Table → (text1 text2 : List ℕ) → Printed
run_cipher table text1 text2 =
    let c1 = pb_encode table text1 no_blank in
    let c2 = pb_encode table text2 no_blank in
    record {
      ciphertext1 = c1;
      ciphertext2 = c2;
      parsetext1 = pb_decode table c1;
      parsetext2 = pb_decode table c2;
    }
