-- ===== src/Locked/Discipline.antt =====
-- Which calls keep to the mutex.
use computersystems_monorepo.Prelude.{
  ℕ, ◌+◌, ◌^◌, ◌<◌, ◌≡◌, ◌∙◌, ◌⊎◌, refl, arith, Bool, true, false, not, ◌&&◌, leb, ◌==◌, List, [],
  ◌∷◌, ◌++◌, Bool-cases, inl, inr,
}
use computersystems_monorepo.FreeList.{
  Memory, header_size, Run, ok, fault, out_of_fuel, init, find_block, allocate, set_free, sub_size,
  mergefrag, pm_malloc, pm_free,
}
use computersystems_monorepo.FreeList.Chain.{Block, IsChain}
use computersystems_monorepo.FreeList.Malloc.{Ensures, pm_malloc_refines}
use computersystems_monorepo.Locked.{
  arena_size, Event, locks, unlocks, uses, take_found, set_up, pm_malloc_lock, then_unlock, free_if,
  pm_free_lock, pm_free_unlock_twice,
}

-- With `held` for whether the thread has the mutex: it is taken when it is not held, the list is used
-- and the mutex given back when it is, and it is not held at the end.
abbrev pub is_guarded : (held : Bool) → List Event → Bool
is_guarded held [] = not held
is_guarded true (locks ∷ es) = false
is_guarded false (locks ∷ es) = is_guarded true es
is_guarded true (unlocks ∷ es) = is_guarded false es
is_guarded false (unlocks ∷ es) = false
is_guarded true (uses ∷ es) = is_guarded true es
is_guarded false (uses ∷ es) = false

abbrev pub returns : {A : Type 0} → Run A → Bool
returns (ok a) = true
returns fault = false
returns out_of_fuel = false

Ensures-returns : {A : Type 0} (P : A → Type 0) (r : Run A) → Ensures P r → returns r ≡ true
Ensures-returns P (ok a) h = refl
Ensures-returns P fault h = elim h [ ]
Ensures-returns P out_of_fuel h = elim h [ ]

-- An arena that was not set up, or that its blocks tile.
abbrev pub IsArena : (mem : ℕ) → Memory → Type 0
IsArena mem m =
    ((m mem).size ≡ 0)
    ⊎ ((b : Block) × (bs : List Block) × IsChain m mem (mem + arena_size) (b ∷ bs))

module _ (n : ℕ) (m : Memory) where
  take_found-is_guarded : (r : Run ℕ) → is_guarded true (take_found n m r).events ≡ returns r
  unfolding take_found
  take_found-is_guarded (ok current) = refl
  take_found-is_guarded fault = refl
  take_found-is_guarded out_of_fuel = refl

  take_found-allocate :
      (fuel p : ℕ) (r : Run ℕ)
      → find_block fuel n p m ≡ r
      → ((take_found n m r).result ≡ allocate fuel n p m)
        × (returns r ≡ returns (allocate fuel n p m))
  unfolding take_found allocate
  take_found-allocate fuel p (ok current) e = rw (allocate, e) (refl, refl)
  take_found-allocate fuel p fault e = rw (allocate, e) (refl, refl)
  take_found-allocate fuel p out_of_fuel e = rw (allocate, e) (refl, refl)

module _ (mem n : ℕ) (m : Memory) where
  malloc_used :
      ((m mem).size == 0) ≡ false
      → (is_guarded false (pm_malloc_lock mem n m).events ≡ returns (pm_malloc mem arena_size n m))
        × ((pm_malloc_lock mem n m).result ≡ pm_malloc mem arena_size n m)
  unfolding pm_malloc_lock set_up pm_malloc
  malloc_used used =
      let (same, both) = take_found-allocate n m (arena_size + 1) mem _ refl in
      rw (used, set_up)
        (take_found-is_guarded n m (find_block (arena_size + 1) n mem m) ∙ both, same)

  malloc_empty :
      ((m mem).size == 0) ≡ true
      → (is_guarded false (pm_malloc_lock mem n m).events ≡ false)
        × ((pm_malloc_lock mem n m).result ≡ pm_malloc mem arena_size n m)
  unfolding pm_malloc_lock set_up pm_malloc
  malloc_empty empty =
      let (same, both) =
        take_found-allocate n (init mem arena_size m) (arena_size + 1) mem _ refl in
      rw (empty, set_up) (refl, same)

-- On an arena, with a request below 2 ^ 64 - 24, `pm_malloc_lock` returns what `pm_malloc` returns,
-- and keeps to the mutex exactly where it does not set up the arena: where it does, it gives the mutex
-- back before it searches the list.
pub pm_malloc_lock-is_guarded :
    (mem n : ℕ) (m : Memory)
    → mem + arena_size < 2 ^ 64
    → n + header_size < 2 ^ 64
    → IsArena mem m
    → (is_guarded false (pm_malloc_lock mem n m).events ≡ not ((m mem).size == 0))
      × ((pm_malloc_lock mem n m).result ≡ pm_malloc mem arena_size n m)
pm_malloc_lock-is_guarded mem n m small request arena = elim (Bool-cases ((m mem).size == 0)) [
  | inl empty ↦ rw empty (malloc_empty mem n m empty)
  | inr used ↦
      let (guarded, same) = malloc_used mem n m used in
      elim arena [
        | inl zero_size ↦ absurd (ground arith)
        | inr (b, bs, chain) ↦
            let refined =
              pm_malloc_refines mem arena_size n m small request b bs chain
                (λ e. ground (arith, chain.0, e)) in
            (guarded ∙ Ensures-returns _ _ refined ∙ rw used refl, same)
      ]
]

then_unlock-is_guarded :
    (r : Run Memory)
    → (is_guarded true (then_unlock r).events ≡ returns r) × ((then_unlock r).result ≡ r)
unfolding then_unlock
then_unlock-is_guarded (ok m) = (refl, refl)
then_unlock-is_guarded fault = (refl, refl)
then_unlock-is_guarded out_of_fuel = (refl, refl)

-- A second unlock behind the first.
unlocked_twice :
    (r : Run Memory)
    → is_guarded true ((then_unlock r).events ++ (then_unlock (then_unlock r).result).events)
      ≡ false
unfolding then_unlock
unlocked_twice (ok m) = refl
unlocked_twice fault = refl
unlocked_twice out_of_fuel = refl

module _ (mem ptr : ℕ) (m : Memory) where
  abbrev is_inside : Bool
  is_inside = leb mem ptr && leb ptr (mem + arena_size)

  abbrev merged : Run Memory
  merged = mergefrag mem arena_size (set_free (sub_size ptr header_size) 1 m)

  -- What the three calls leave for a pointer in the arena, and for one outside.
  free_inside :
      is_inside ≡ true
      → (is_guarded false (pm_free_lock mem ptr m).events ≡ returns merged)
        × ((pm_free_lock mem ptr m).result ≡ merged)
        × (pm_free mem arena_size ptr m ≡ merged)
  unfolding pm_free_lock free_if pm_free
  free_inside inside =
      let (guarded, same) = then_unlock-is_guarded merged in
      rw (inside, free_if) (guarded, same, refl)

  free_outside :
      is_inside ≡ false
      → (is_guarded false (pm_free_lock mem ptr m).events ≡ true)
        × ((pm_free_lock mem ptr m).result ≡ ok m)
        × (pm_free mem arena_size ptr m ≡ ok m)
  unfolding pm_free_lock free_if pm_free
  free_outside outside = rw (outside, free_if) (refl, refl, refl)

  free_twice : is_guarded false (pm_free_unlock_twice mem ptr m).events ≡ false
  unfolding pm_free_unlock_twice pm_free_lock free_if then_unlock
  free_twice = elim (Bool-cases is_inside) [
    | inl inside ↦ rw (inside, free_if) (unlocked_twice merged)
    | inr outside ↦ rw (outside, free_if, then_unlock) refl
  ]

-- `pm_free_lock` of A8 does what `pm_free` does, and keeps to the mutex for every pointer for which it
-- returns; where `mergefrag` ends the program, the mutex is held. `pm_free_lock` of PracticumI keeps to
-- it for no pointer.
pub pm_free_lock-is_guarded :
    (mem ptr : ℕ) (m : Memory)
    → (is_guarded false (pm_free_lock mem ptr m).events ≡ returns (pm_free mem arena_size ptr m))
      × ((pm_free_lock mem ptr m).result ≡ pm_free mem arena_size ptr m)
      × (is_guarded false (pm_free_unlock_twice mem ptr m).events ≡ false)
pm_free_lock-is_guarded mem ptr m = elim (Bool-cases (is_inside mem ptr m)) [
  | inl inside ↦
      let (guarded, same, spec) = free_inside mem ptr m inside in
      rw spec (guarded, same, free_twice mem ptr m)
  | inr outside ↦
      let (guarded, same, spec) = free_outside mem ptr m outside in
      rw spec (guarded, same, free_twice mem ptr m)
]
