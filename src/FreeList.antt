-- ===== src/FreeList.antt =====
-- The first-fit allocator of A7/malloc.c (`init`, `frag`, `pm_malloc`, `mergefrag`, `pm_free`), whose
-- `init`, `frag` and `mergefrag` A8/malloc.c repeats. Addresses are numbers, NULL is 0. Memory holds a
-- `struct block` at each address: on the list the headers do not overlap, and a program that stays
-- inside its blocks does not write to them. Static memory starts as zero headers.
pub mod Blocks
pub mod Chain
pub mod Faults
pub mod Free
pub mod Live
pub mod Malloc
pub mod Merge
pub mod Safety
pub mod Tests
pub mod Write
use computersystems_monorepo.Prelude.{
  ℕ, zero, suc, ◌+◌, ◌-◌, ◌%◌, ◌^◌, Bool, true, false, ◌&&◌, ◌||◌, not, ltb, leb, ◌==◌,
  if◌then◌else◌, update,
}

abbrev pub null : ℕ
null = 0

-- `sizeof(struct block)`: a `size_t`, an `int` with its padding, and a pointer.
abbrev pub header_size : ℕ
header_size = 24

-- `struct block`.
pub record Header : Type 0 where
  pub size : ℕ
  pub free : ℕ
  pub next : ℕ

abbrev pub Memory : Type 0
Memory = ℕ → Header

-- `size_t` and pointer arithmetic wraps.
abbrev pub add_size : ℕ → ℕ → ℕ
add_size a b = (a + b) % 2 ^ 64

abbrev pub sub_size : ℕ → ℕ → ℕ
sub_size a b = (a + 2 ^ 64 - b) % 2 ^ 64

-- The assignments `p->size = v`, `p->free = v` and `p->next = v`.
unfoldable pub set_size : ℕ → ℕ → Memory → Memory
set_size p v m = update m p (record (m p) { size = v })

unfoldable pub set_free : ℕ → ℕ → Memory → Memory
set_free p v m = update m p (record (m p) { free = v })

unfoldable pub set_next : ℕ → ℕ → Memory → Memory
set_next p v m = update m p (record (m p) { next = v })

-- The outcome of a call: `fault` is a read or write through NULL.
pub data Run (A : Type 0) : Type 0 where
  ok : A → Run A
  fault : Run A
  out_of_fuel : Run A

-- `init`, for an arena of `her` bytes at `mem`.
unfoldable pub init : (mem her : ℕ) → Memory → Memory
init mem her m = set_next mem null (set_free mem 1 (set_size mem (sub_size her header_size) m))

unfoldable pub frag : (slot size : ℕ) → Memory → Memory
frag slot size m =
    let new = add_size (add_size slot size) header_size in
    let m₁ = set_size new (sub_size (sub_size (m slot).size size) header_size) m in
    let m₂ = set_free new 1 m₁ in
    let m₃ = set_next new (m₂ slot).next m₂ in
    let m₄ = set_size slot size m₃ in let m₅ = set_free slot 0 m₄ in set_next slot new m₅

-- The loop of `pm_malloc`: it stops at the first free block that is large enough, and at the last.
unfoldable pub find_block : ℕ → (n current : ℕ) → Memory → Run ℕ
find_block zero n current m = out_of_fuel
find_block (suc fuel) n current m =
    elim ((ltb (m current).size n || ((m current).free == 0)) && not ((m current).next == null)) [
      | true ↦ find_block fuel n (m current).next m
      | false ↦ ok current
    ]

-- The part of `pm_malloc` after the loop. The result is the new memory and the address returned.
unfoldable pub take_block : (n current : ℕ) → Memory → Memory × ℕ
take_block n current m =
    if (m current).size == n
    then (set_free current 0 m, add_size current header_size)
    else if ltb (add_size n header_size) (m current).size
    then (frag current n m, add_size current header_size)
    else (m, null)

unfoldable pub allocate : ℕ → (n current : ℕ) → Memory → Run (Memory × ℕ)
allocate fuel n current m = elim (find_block fuel n current m) [
  | ok found ↦ ok (take_block n found m)
  | fault ↦ fault
  | out_of_fuel ↦ out_of_fuel
]

-- What both loops have as fuel: an arena of `her` bytes has fewer blocks.
unfoldable pub pm_malloc : (mem her n : ℕ) → Memory → Run (Memory × ℕ)
pm_malloc mem her n m =
    let m' = if (m mem).size == 0 then init mem her m else m in allocate (her + 1) n mem m'

-- One round of `mergefrag` joins `curr` with its neighbour if both are free.
unfoldable pub join : ℕ → Memory → Memory
join curr m =
    let next = (m curr).next in
    if not ((m curr).free == 0) && not ((m next).free == 0)
    then (let m₁ = set_size curr (add_size (m curr).size (add_size (m next).size header_size)) m in
        set_next curr (m₁ (m₁ curr).next).next m₁)
    else m

-- The loop of `mergefrag`: `curr->next` with `curr` at NULL is a fault.
unfoldable pub merge_loop : ℕ → ℕ → Memory → Run Memory
merge_loop zero curr m = out_of_fuel
merge_loop (suc fuel) curr m = elim (curr == null) [
  | true ↦ fault
  | false ↦ elim ((m curr).next == null) [
    | true ↦ ok m
    | false ↦ let m' = join curr m in merge_loop fuel (m' curr).next m'
  ]
]

unfoldable pub mergefrag : (mem her : ℕ) → Memory → Run Memory
mergefrag mem her m = merge_loop (her + 1) mem m

-- A pointer outside of the arena is reported and nothing is changed.
unfoldable pub pm_free : (mem her ptr : ℕ) → Memory → Run Memory
pm_free mem her ptr m =
    if leb mem ptr && leb ptr (mem + her)
    then mergefrag mem her (set_free (sub_size ptr header_size) 1 m)
    else ok m
