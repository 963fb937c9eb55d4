-- ===== src/FreeList/Live.antt =====
-- The pointers in use: which blocks of the list a client holds, through `alloc`, `release` and
-- `merge_pass`.
use mathlib.Core.Option.{some-injective, none-ne-some}
use computersystems_monorepo.Prelude.{
  ℕ, ◌+◌, ◌-◌, ◌≤◌, ◌<◌, ◌≡◌, ◌∙◌, ap, sym, subst, refl, ◌≢◌, ◌⊎◌, arith, List, [], ◌∷◌, ◌==◌, ltb,
  ◌||◌, ◌&&◌, Bool, true, false, Bool-cases, ==→eq, ltb→lt, inl, inr, Option, none, some, not,
}
use computersystems_monorepo.FreeList.{header_size, null}
use computersystems_monorepo.FreeList.Chain.{Block, block, after}
use computersystems_monorepo.FreeList.Blocks.{
  take, is_unfit, keep, alloc, are_free, joined, prepend, merge_pass, release,
}

-- `a` is the pointer of a block of the list from `p` that is in use.
abbrev pub is_live : (a p : ℕ) → List Block → Bool
is_live a p [] = false
is_live a p (b ∷ bs) = ((a == p + header_size) && (b.free == 0)) || is_live a (after p b) bs

-- The last block of the list is free, as it is from `init` on.
abbrev pub is_last_free : List Block → Bool
is_last_free [] = false
is_last_free (b ∷ []) = not (b.free == 0)
is_last_free (b ∷ c ∷ bs) = is_last_free (c ∷ bs)

-- The live pointers are above the start.
is_live-low : (a p : ℕ) (bs : List Block) → a < p + header_size → is_live a p bs ≡ false
is_live-low a p [] lt = refl
is_live-low a p (b ∷ bs) lt = ground (arith, is_live-low a (after p b) bs (omega arith))

-- `r` was not in use before, is in use now, and is the only change.
abbrev pub IsNew : (r p : ℕ) (bs cs : List Block) → Type 0
IsNew r p bs cs =
    (is_live r p bs ≡ false)
    × (is_live r p cs ≡ true)
    × ((a : ℕ) → a ≢ r → is_live a p cs ≡ is_live a p bs)

abbrev pub Fresh : (p : ℕ) → List Block → List Block × ℕ → Type 0
Fresh p bs (cs, r) = ((r ≡ null) × (cs ≡ bs)) ⊎ IsNew r p bs cs

module _ (n p : ℕ) (b : Block) (bs : List Block) where
  pub take-exact : (b.size == n) ≡ true → take n p b bs ≡ (block n 0 ∷ bs, p + header_size)
  unfolding take
  take-exact e = rw e

  pub take-split :
      (b.size == n) ≡ false
      → ltb (n + header_size) b.size ≡ true
      → take n p b bs ≡ (block n 0 ∷ block (b.size - n - header_size) 1 ∷ bs, p + header_size)
  unfolding take
  take-split e f = rw (e, f)

  take-none :
      (b.size == n) ≡ false → ltb (n + header_size) b.size ≡ false → take n p b bs ≡ (b ∷ bs, null)
  unfolding take
  take-none e f = rw (e, f)

module _ (n p : ℕ) (b c : Block) (bs : List Block) where
  pub alloc-unfit :
      is_unfit n b ≡ true → alloc n p (b ∷ c ∷ bs) ≡ keep b (alloc n (after p b) (c ∷ bs))
  unfolding alloc
  alloc-unfit e = rw (e, alloc)

  alloc-fit : is_unfit n b ≡ false → alloc n p (b ∷ c ∷ bs) ≡ take n p b (c ∷ bs)
  unfolding alloc
  alloc-fit e = rw (e, alloc)

module _ (n p : ℕ) (b : Block) (bs : List Block) (free : b.free ≢ 0) where
  whole-IsNew : b.size ≡ n → IsNew (p + header_size) p (b ∷ bs) (block n 0 ∷ bs)
  whole-IsNew exact =
      let low = is_live-low (p + header_size) (after p b) bs (omega arith) in
      (ground (arith, low), ground arith, λ a ne. rw exact (ground arith))

  part-IsNew :
      n + header_size < b.size
      → IsNew (p + header_size) p (b ∷ bs) (block n 0 ∷ block (b.size - n - header_size) 1 ∷ bs)
  part-IsNew large =
      let low = is_live-low (p + header_size) (after p b) bs (omega arith) in
      let behind : after (after p (block n 0)) (block (b.size - n - header_size) 1) ≡ after p b =
        omega arith in
      (ground (arith, low), ground arith, λ a ne. rw behind (ground arith))

  take-Fresh : Fresh p (b ∷ bs) (take n p b bs)
  take-Fresh = elim (Bool-cases (b.size == n)) [
    | inl exact ↦
        subst (Fresh p (b ∷ bs)) (sym (take-exact n p b bs exact))
          (inr (whole-IsNew (==→eq b.size n exact)))
    | inr other ↦ elim (Bool-cases (ltb (n + header_size) b.size)) [
      | inl large ↦
          subst (Fresh p (b ∷ bs)) (sym (take-split n p b bs other large))
            (inr (part-IsNew (ltb→lt _ _ large)))
      | inr tight ↦
          subst (Fresh p (b ∷ bs)) (sym (take-none n p b bs other tight)) (inl (refl, refl))
    ]
  ]

live-above : (r p : ℕ) (cs : List Block) → is_live r p cs ≡ true → p + header_size ≤ r
live-above r p cs live = elim (Bool-cases (ltb r (p + header_size))) [
  | inl low ↦ absurd (ground (arith, is_live-low r p cs (ltb→lt _ _ low)))
  | inr high ↦ ground arith
]

keep-Fresh :
    (p : ℕ) (b : Block) (bs : List Block) (o : List Block × ℕ)
    → Fresh (after p b) bs o
    → Fresh p (b ∷ bs) (keep b o)
keep-Fresh p b bs (cs, r) (inl (nil, same)) = inl (nil, ap (λ l. b ∷ l) same)
keep-Fresh p b bs (cs, r) (inr (before, now, only)) =
    let above = live-above r (after p b) cs now in
    inr (ground (arith, above), ground arith, λ a ne. rw (only a ne) refl)

-- Where the last block is free, `alloc` gives out a pointer that is not in use, or none.
pub alloc-Fresh : (n p : ℕ) (bs : List Block) → is_last_free bs ≡ true → Fresh p bs (alloc n p bs)
unfolding alloc
alloc-Fresh n p [] last = absurd cc
alloc-Fresh n p (b ∷ []) last = take-Fresh n p b [] (ground arith)
alloc-Fresh n p (b ∷ c ∷ bs) last = elim (Bool-cases (is_unfit n b)) [
  | inl unfit ↦
      subst (Fresh p (b ∷ c ∷ bs)) (sym (alloc-unfit n p b c bs unfit))
        (keep-Fresh p b (c ∷ bs) _ (alloc-Fresh n (after p b) (c ∷ bs) last))
  | inr fit ↦
      subst (Fresh p (b ∷ c ∷ bs)) (sym (alloc-fit n p b c bs fit))
        (take-Fresh n p b (c ∷ bs) (ground arith))
]

-- Releasing the pointer `a` takes it, and no other, out of use.
pub release-live :
    (x a p : ℕ) (bs : List Block) → is_live x p (release a p bs) ≡ (not (x == a) && is_live x p bs)
unfolding release
release-live x a p [] = ground arith
release-live x a p (b ∷ bs) =
    ground (arith, release-live x a (after p b) bs, is_live-low (p + header_size) (after p b) bs)

prepend-live :
    (a p : ℕ) (b : Block) (bs cs : List Block) (o : Option (List Block))
    → ((ds : List Block) → o ≡ some ds → is_live a (after p b) ds ≡ is_live a (after p b) bs)
    → prepend b o ≡ some cs
    → is_live a p cs ≡ is_live a p (b ∷ bs)
prepend-live a p b bs cs none rest e = absurd cc
prepend-live a p b bs cs (some ds) rest e = rw (← some-injective _ _ e, rest ds refl) refl

joined-live :
    (a p : ℕ) (b c : Block) (bs : List Block)
    → are_free b c ≡ true
    → is_live a p (joined b c ∷ bs) ≡ is_live a p (b ∷ c ∷ bs)
joined-live a p b c bs both =
    let behind : after p (joined b c) ≡ after (after p b) c = omega arith in
    rw behind (ground arith)

-- Merging leaves the pointers in use as they are.
pub merge_pass-live :
    (a p : ℕ) (bs cs : List Block) → merge_pass bs ≡ some cs → is_live a p cs ≡ is_live a p bs
unfolding merge_pass
merge_pass-live a p [] cs e = rw (← some-injective _ _ e) refl
merge_pass-live a p (b ∷ []) cs e = rw (← some-injective _ _ e) refl
merge_pass-live a p (b ∷ c ∷ []) cs e = elim (Bool-cases (are_free b c)) [
  | inl both ↦ absurd (none-ne-some _ (rw both at e))
  | inr one ↦ rw (← some-injective _ _ (rw one at e)) refl
]
merge_pass-live a p (b ∷ c ∷ d ∷ bs) cs e = elim (Bool-cases (are_free b c)) [
  | inl both ↦
      prepend-live a p (joined b c) (d ∷ bs) cs (merge_pass (d ∷ bs))
        (λ ds f. merge_pass-live a _ (d ∷ bs) ds f) (rw (both, merge_pass) at e)
      ∙ joined-live a p b c (d ∷ bs) both
  | inr one ↦
      prepend-live a p b (c ∷ d ∷ bs) cs (merge_pass (c ∷ d ∷ bs))
        (λ ds f. merge_pass-live a (after p b) (c ∷ d ∷ bs) ds f) (rw (one, merge_pass) at e)
]
