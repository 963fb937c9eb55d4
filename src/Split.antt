-- ===== src/Split.antt =====
-- `frag` of PracticumI/malloc.c: that of A7/malloc.c, and a rest that could not hold a header is put
-- together with the next block where that is free. Its `struct block` is that of A7.
pub mod Absorb
pub mod Tests
use computersystems_monorepo.Prelude.{ℕ, ◌&&◌, not, ltb, ◌==◌, if◌then◌else◌}
use computersystems_monorepo.FreeList.{Memory, header_size, null, add_size, set_size, set_next}
use computersystems_monorepo.FreeList

unfoldable pub absorb : (new : ℕ) → Memory → Memory
absorb new m =
    let next = (m new).next in
    if ltb (m new).size header_size && (not (next == null) && not ((m next).free == 0))
    then (let m₁ = set_size new (add_size (m new).size (add_size (m next).size header_size)) m in
        set_next new (m₁ (m₁ new).next).next m₁)
    else m

unfoldable pub frag : (slot size : ℕ) → Memory → Memory
frag slot size m = absorb (add_size (add_size slot size) header_size) (FreeList.frag slot size m)
