-- ===== src/CText.antt =====
-- C strings, as the servers and clients use them: a string is its characters without
-- the NUL, a buffer is all of its bytes.
pub mod Buffers
pub mod Tokens
use Prim.Native.Char.{code}
use Prim.Native.String.{String}
use computersystems_monorepo.Prelude.{
  ℕ, zero, suc, ◌+◌, ◌-◌, ◌/◌, ◌%◌, ◌^◌, Bool, true, false, not, ◌&&◌, ◌==◌, leb, ltb, Option, none,
  some, List, [], ◌∷◌, ◌++◌, if◌then◌else◌, length, take, drop,
}
use computersystems_monorepo.Posix.{Bytes}

-- The bytes of a text in ASCII.
abbrev pub codes : String → Bytes
codes String.[] = []
codes (String.◌∷◌ c s) = code c ∷ codes s

-- `strcmp` gives 0.
abbrev pub same : Bytes → Bytes → Bool
same [] [] = true
same [] (y ∷ ys) = false
same (x ∷ xs) [] = false
same (x ∷ xs) (y ∷ ys) = (x == y) && same xs ys

-- A buffer that `memset` cleared.
unfoldable pub zeros : ℕ → Bytes
zeros zero = []
zeros (suc n) = 0 ∷ zeros n

-- The string at the start of a buffer; `none` where no NUL ends it in the buffer.
abbrev pub c_string : Bytes → Option Bytes
c_string [] = none
c_string (c ∷ buffer) =
    let rest = c_string buffer in
    if c == 0 then some [] else elim rest [ none ↦ none | some s ↦ some (c ∷ s) ]

-- A buffer over whose start `bytes` were written.
abbrev pub overwrite : Bytes → Bytes → Bytes
overwrite bytes buffer = bytes ++ drop (length bytes) buffer

abbrev pub skip_spaces : Bytes → Bytes × Bytes
skip_spaces [] = ([], [])
skip_spaces (c ∷ s) =
    let (spaces, rest) = skip_spaces s in if c == b' ' then (c ∷ spaces, rest) else ([], c ∷ s)

abbrev pub up_to_space : Bytes → Bytes × Bytes
up_to_space [] = ([], [])
up_to_space (c ∷ s) =
    let (word, rest) = up_to_space s in if c == b' ' then ([], c ∷ s) else (c ∷ word, rest)

-- One call of `strtok` with the delimiter " ": the token, what the buffer holds up to where the next
-- call goes on (the delimiter became a NUL), and the characters from there on.
pub record Scan : Type 0 where
  pub token : Option Bytes
  pub spaces : Bytes
  pub passed : Bytes
  pub rest : Bytes

abbrev pub cut : Bytes → Bytes → Bytes → Scan
cut spaces [] after = record { token = none; spaces = spaces; passed = spaces; rest = [] }
cut spaces (c ∷ word) [] = record {
  token = some (c ∷ word);
  spaces = spaces;
  passed = spaces ++ c ∷ word;
  rest = [];
}
cut spaces (c ∷ word) (_ ∷ rest) = record {
  token = some (c ∷ word);
  spaces = spaces;
  passed = spaces ++ (c ∷ word ++ 0 ∷ []);
  rest = rest;
}

unfoldable pub strtok : Bytes → Scan
strtok s =
    let (spaces, body) = skip_spaces s in
    let (word, after) = up_to_space body in cut spaces word after

-- A string in an array, with the bytes behind its NUL.
pub record Text : Type 0 where
  pub chars : Bytes
  pub room : ℕ

-- `none` is a write past the array.
unfoldable pub strcat : Text → Bytes → Option Text
strcat text more =
    if leb (length more) text.room
    then some (record { chars = text.chars ++ more; room = text.room - length more })
    else none

-- What is behind the last '/', where there is one.
abbrev pub behind_slash : Bytes → Option Bytes
behind_slash [] = none
behind_slash (c ∷ s) = elim (behind_slash s) [
  | some name ↦ some name
  | none ↦ if c == b'/' then some s else none
]

-- The digits of `n`, of which there are at most `fuel`.
abbrev pub digits : ℕ → (base n : ℕ) → Bytes
digits zero base n = []
digits (suc fuel) base n =
    let more = digits fuel base (n / base) in
    if ltb n base then (b'0' + n) ∷ [] else more ++ (b'0' + n % base) ∷ []

-- `%ld`, `%d` and `%o`.
unfoldable pub signed : (width n : ℕ) → Bytes
signed width n =
    if leb (2 ^ (width - 1)) n then b'-' ∷ digits width 10 (2 ^ width - n) else digits width 10 n

unfoldable pub octal : ℕ → Bytes
octal n = digits 32 8 n
