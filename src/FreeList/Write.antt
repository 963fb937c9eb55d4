-- ===== src/FreeList/Write.antt =====
-- Field assignments put together to whole headers.
use mathlib.Core.Path.{fun_ext}
use computersystems_monorepo.Prelude.{
  ℕ, ◌≡◌, refl, ◌≢◌, arith, ◌==◌, ne→==, eq→==, false, update, ◌&&◌, not,
}
use computersystems_monorepo.FreeList.{
  Header, Memory, header_size, null, add_size, sub_size, set_size, set_free, set_next, init, frag,
  join,
}

abbrev pub header : (size free next : ℕ) → Header
header s f n = record { size = s; free = f; next = n }

-- The three assignments that fill a header.
pub fill_header :
    (p s f n : ℕ) (m : Memory)
    → set_next p n (set_free p f (set_size p s m)) ≡ update m p (header s f n)
unfolding set_size set_free set_next
fill_header p s f n m = fun_ext λ a. ground arith

other_field : (p s f a : ℕ) (m : Memory) → p ≢ a → set_free p f (set_size p s m) a ≡ m a
unfolding set_size set_free
other_field p s f a m ne = ground arith

pub set_free-eq :
    (p f : ℕ) (m : Memory) → set_free p f m ≡ update m p (header (m p).size f (m p).next)
unfolding set_free
set_free-eq p f m = refl

pub init-eq :
    (mem her : ℕ) (m : Memory)
    → init mem her m ≡ update m mem (header (sub_size her header_size) 1 null)
unfolding init
init-eq mem her m = fill_header mem (sub_size her header_size) 1 null m

-- Where the new header does not meet that of the slot, `frag` writes the two headers.
pub frag-eq :
    (slot n new : ℕ) (m : Memory)
    → add_size (add_size slot n) header_size ≡ new
    → new ≢ slot
    → frag slot n m
      ≡ update
          (update m new (header (sub_size (sub_size (m slot).size n) header_size) 1 (m slot).next))
          slot
          (header n 0 new)
unfolding frag
frag-eq slot n new m e ne = rw (e, fill_header, fill_header, other_field new _ 1 slot m ne) refl

-- Two free neighbours become one; otherwise nothing is written.
pub join-free :
    (curr next : ℕ) (m : Memory)
    → (m curr).next ≡ next
    → curr ≢ next
    → ((m curr).free == 0) ≡ false
    → ((m next).free == 0) ≡ false
    → join curr m
      ≡ update m curr (
          header
            (add_size (m curr).size (add_size (m next).size header_size))
            (m curr).free
            (m next).next)
unfolding join set_size set_next
join-free curr next m e ne f g =
    rw (e, f, g, eq→== curr curr refl, ne→== curr next ne) (fun_ext λ a. ground arith)

pub join-used :
    (curr : ℕ) (m : Memory)
    → (not ((m curr).free == 0) && not ((m (m curr).next).free == 0)) ≡ false
    → join curr m ≡ m
unfolding join
join-used curr m e = rw e
