-- ===== src/Translation/Address.antt =====
-- The masks and the shift of PracticumV2/main.c as arithmetic on the address.
use computersystems_monorepo.Prelude.{
  ℕ, ◌+◌, ◌*◌, ◌/◌, ◌%◌, ◌^◌, ◌<◌, ◌≡◌, arith, bit_or, bit_and_low_byte, bit_and_high_byte,
  bit_or_low_byte,
}
use computersystems_monorepo.Translation.{
  get_page_number, get_offset, page_mask, offset_mask, shift, sign_extend, to_char,
}

-- The page is the second byte of the address, and the offset the first, for every 32-bit pattern.
pub get_page_number-eq : (v : ℕ) → get_page_number page_mask v shift ≡ v / 256 % 256
unfolding get_page_number
get_page_number-eq v = ground (arith, bit_and_high_byte v)

pub get_offset-eq : (v : ℕ) → get_offset offset_mask v ≡ v % 256
unfolding get_offset
get_offset-eq v = bit_and_low_byte v

-- Page and offset are in range, and together are the low 16 bits of the address.
pub address_split :
    (v : ℕ)
    → (get_page_number page_mask v shift < 256)
      × (get_offset offset_mask v < 256)
      × (get_page_number page_mask v shift * 256 + get_offset offset_mask v ≡ v % 2 ^ 16)
address_split v = omega (arith, get_page_number-eq v, get_offset-eq v)

pub physical_address-eq :
    (frame offset : ℕ) → offset < 256 → bit_or (frame * 2 ^ shift) offset ≡ frame * 256 + offset
physical_address-eq frame offset h = bit_or_low_byte frame offset h

-- A byte survives its stay in an `int`.
pub to_char-sign_extend : (b : ℕ) → b < 256 → to_char (sign_extend b) ≡ b
unfolding to_char sign_extend
to_char-sign_extend b h = ground arith
