-- ===== src/CText/Tokens.antt =====
-- Strings in a buffer, and words in a string.
use computersystems_monorepo.Prelude.{ℕ, ◌≡◌, ◌≢◌, refl, some, [], ◌∷◌, ◌++◌, ne→==}
use computersystems_monorepo.Posix.{Bytes}
use computersystems_monorepo.CText.{c_string, up_to_space, strtok, Scan}

-- No byte of the list is `x`.
abbrev pub HasNo : (x : ℕ) → Bytes → Type 0
HasNo x [] = Unit {0}
HasNo x (c ∷ s) = (c ≢ x) × HasNo x s

pub HasNo-append : (x : ℕ) (s t : Bytes) → HasNo x s → HasNo x t → HasNo x (s ++ t)
HasNo-append x [] t hs ht = ht
HasNo-append x (c ∷ s) t (ne, hs) ht = (ne, HasNo-append x s t hs ht)

pub c_string-append : (s tail : Bytes) → HasNo 0 s → c_string (s ++ 0 ∷ tail) ≡ some s
c_string-append [] tail h = refl
c_string-append (c ∷ s) tail (ne, h) = rw (c_string-append s tail h, ne→== c 0 ne) refl

up_to_space-word :
    (w rest : Bytes) → HasNo b' ' w → up_to_space (w ++ b' ' ∷ rest) ≡ (w, b' ' ∷ rest)
up_to_space-word [] rest h = refl
up_to_space-word (c ∷ w) rest (ne, h) = rw (up_to_space-word w rest h, ne→== c b' ' ne) refl

up_to_space-last : (w : Bytes) → HasNo b' ' w → up_to_space w ≡ (w, [])
up_to_space-last [] h = refl
up_to_space-last (c ∷ w) (ne, h) = rw (up_to_space-last w h, ne→== c b' ' ne) refl

-- The scan of a word that a space follows, and of a word at the end.
abbrev pub word_scan : (word rest : Bytes) → Scan
word_scan word rest = record {
  token = some word;
  spaces = [];
  passed = word ++ 0 ∷ [];
  rest = rest;
}

abbrev pub last_scan : (word : Bytes) → Scan
last_scan word = record { token = some word; spaces = []; passed = word; rest = [] }

module _ (c : ℕ) (w : Bytes) (h : HasNo b' ' (c ∷ w)) where
  pub strtok-word : (rest : Bytes) → strtok (c ∷ w ++ b' ' ∷ rest) ≡ word_scan (c ∷ w) rest
  unfolding strtok
  strtok-word rest = rw (ne→== c b' ' h.0, up_to_space-word w rest h.1, ne→== c b' ' h.0) refl

  pub strtok-last : strtok (c ∷ w) ≡ last_scan (c ∷ w)
  unfolding strtok
  strtok-last = rw (ne→== c b' ' h.0, up_to_space-last w h.1, ne→== c b' ' h.0) refl
