-- ===== src/FreeList/Merge.antt =====
-- `mergefrag` and `pm_free` on memory are `merge_pass` and `release` on the blocks.
use computersystems_monorepo.Prelude.{
  ℕ, zero, suc, ◌+◌, ◌^◌, ◌<◌, ◌≡◌, ◌∙◌, ap, sym, refl, ◌≢◌, arith, List, [], ◌∷◌, length, true,
  false, update, Bool-cases, eq→==, ne→==, inl, inr, Option, none, some,
}
use computersystems_monorepo.FreeList.{
  Header, Memory, header_size, null, add_size, Run, ok, fault, out_of_fuel, join, merge_loop,
}
use computersystems_monorepo.FreeList.Chain.{
  Block, after, next_of, IsChain, IsChain-above, IsChain-length,
}
use computersystems_monorepo.FreeList.Write.{header, join-free, join-used}
use computersystems_monorepo.FreeList.Blocks.{are_free, joined, prepend, merge_pass}

-- The run faults exactly where the pass on the blocks does, and otherwise leaves its blocks.
abbrev pub Matches : Memory → (p end : ℕ) → Option (List Block) → Run Memory → Type 0
Matches m p end (some bs) (ok m') = IsChain m' p end bs × ((a : ℕ) → a < p → m' a ≡ m a)
Matches m p end none fault = Unit
Matches m p end (some bs) fault = ⊥
Matches m p end none (ok m') = ⊥
Matches m p end o out_of_fuel = ⊥

prepend-next_of :
    (q : ℕ) (b : Block) (o : Option (List Block)) (cs : List Block)
    → prepend b o ≡ some cs
    → next_of q cs ≡ q
prepend-next_of q b none cs e = cc
prepend-next_of q b (some bs) cs e = ground arith

-- A pass does not empty the list.
merge_pass-next_of :
    (q : ℕ) (b : Block) (bs cs : List Block) → merge_pass (b ∷ bs) ≡ some cs → next_of q cs ≡ q
unfolding merge_pass
merge_pass-next_of q b [] cs e = ground arith
merge_pass-next_of q b (c ∷ []) cs e = ground arith
merge_pass-next_of q b (c ∷ d ∷ bs) cs e = elim (Bool-cases (are_free b c)) [
  | inl both ↦ prepend-next_of q (joined b c) (merge_pass (d ∷ bs)) cs (rw (both, merge_pass) at e)
  | inr one ↦ prepend-next_of q b (merge_pass (c ∷ d ∷ bs)) cs (rw (one, merge_pass) at e)
]

-- A block in front of a pass that starts behind it.
prepend-Matches :
    (m m' : Memory) (p end : ℕ) (b : Block) (o : Option (List Block)) (r : Run Memory)
    → Matches m' (after p b) end o r
    → m' p ≡ header b.size b.free (after p b)
    → ((a : ℕ) → a < p → m' a ≡ m a)
    → ((cs : List Block) → o ≡ some cs → next_of (after p b) cs ≡ after p b)
    → Matches m p end (prepend b o) r
prepend-Matches m m' p end b (some cs) (ok m'') (chain, kept) here same next = (
  (kept p (omega arith) ∙ here ∙ ap (header b.size b.free) (sym (next cs refl)), chain),
  λ a lt. kept a (omega arith) ∙ same a lt,
)
prepend-Matches m m' p end b none fault h here same next = h
prepend-Matches m m' p end b (some cs) fault h here same next = h
prepend-Matches m m' p end b none (ok m'') h here same next = h
prepend-Matches m m' p end b (some cs) out_of_fuel h here same next = h
prepend-Matches m m' p end b none out_of_fuel h here same next = h

module _ (fuel p q : ℕ) (m : Memory) (pos : p ≢ null) (e : (m p).next ≡ q) where
  merge_loop-last : q ≡ null → merge_loop (suc fuel) p m ≡ ok m
  unfolding merge_loop
  merge_loop-last z = rw (ne→== p 0 pos, e, z, merge_loop)

  merge_loop-next :
      q ≢ null → merge_loop (suc fuel) p m ≡ merge_loop fuel ((join p m) p).next (join p m)
  unfolding merge_loop
  merge_loop-next nz = rw (ne→== p 0 pos, e, ne→== q 0 nz, merge_loop)

merge_loop-null : (fuel : ℕ) (m : Memory) → merge_loop (suc fuel) null m ≡ fault
unfolding merge_loop
merge_loop-null fuel m = refl

pub merge_pass-used :
    (b c : Block) (bs : List Block)
    → are_free b c ≡ false
    → merge_pass (b ∷ c ∷ bs) ≡ prepend b (merge_pass (c ∷ bs))
unfolding merge_pass
merge_pass-used b c [] e = rw (e, merge_pass)
merge_pass-used b c (d ∷ bs) e = rw (e, merge_pass)

merge_pass-both :
    (b c d : Block) (bs : List Block)
    → are_free b c ≡ true
    → merge_pass (b ∷ c ∷ d ∷ bs) ≡ prepend (joined b c) (merge_pass (d ∷ bs))
unfolding merge_pass
merge_pass-both b c d bs e = rw (e, merge_pass)

-- The round of the loop at two blocks of the list.
module _ (p end : ℕ) (m : Memory) (small : end < 2 ^ 64) (b c : Block) (bs : List Block)
    (here : m p ≡ header b.size b.free (after p b))
    (next : m (after p b) ≡ header c.size c.free (next_of (after (after p b) c) bs))
    (rest : IsChain m (after (after p b) c) end bs) where
  round-used : are_free b c ≡ false → join p m ≡ m
  round-used one = join-used p m (rw (here, next) one)

  round-both :
      are_free b c ≡ true
      → join p m
        ≡ update m p
            (header (b.size + (c.size + header_size)) b.free (next_of (after (after p b) c) bs))
  round-both both =
      let room = IsChain-length m (after (after p b) c) end bs rest in
      let sum : add_size b.size (add_size c.size header_size) ≡ b.size + (c.size + header_size) =
        omega (arith, room) in
      rw (← sum) (
        join-free p (after p b) m (ap (λ (h : Header). h.next) here) (λ e. omega arith)
          (rw here (ground arith)) (rw next (ground arith))
        ∙ rw (here, next))

  -- The last two blocks are joined, and the loop goes on with NULL.
  both_last :
      (fuel : ℕ)
      → p ≢ null
      → are_free b c ≡ true
      → bs ≡ []
      → merge_loop (suc (suc fuel)) p m ≡ fault
  both_last fuel pos both last =
      rw
        (merge_loop-next (suc fuel) p (after p b) m pos (ap (λ (h : Header). h.next) here)
          (λ e. omega arith))
        (rw (round-both both, last, eq→== p p refl) (merge_loop-null fuel _))

module _ (end : ℕ) (small : end < 2 ^ 64) where
  -- The round of two free blocks with more behind them, given what the loop does there.
  both_round :
      (fuel p : ℕ) (m : Memory) (b c d : Block) (bs : List Block)
      → p ≢ null
      → IsChain m p end (b ∷ c ∷ d ∷ bs)
      → are_free b c ≡ true
      → ((m' : Memory)
          → IsChain m' (after (after p b) c) end (d ∷ bs)
          → Matches m'
              (after (after p b) c)
              end
              (merge_pass (d ∷ bs))
              (merge_loop fuel (after (after p b) c) m'))
      → Matches m p end (merge_pass (b ∷ c ∷ d ∷ bs)) (merge_loop (suc fuel) p m)
  both_round fuel p m b c d bs pos (here, (next, rest)) both behind =
      let q = after (after p b) c in
      let m' = update m p (header (b.size + (c.size + header_size)) b.free (after (after p b) c)) in
      let end_of : after p (joined b c) ≡ q = omega arith in
      let at_p : m' p ≡ header (joined b c).size b.free q = ground arith in
      let chain : IsChain m' q end (d ∷ bs) =
        IsChain-above m m' q end (d ∷ bs) rest (λ a le. ground arith) in
      rw
        (
          merge_loop-next fuel p (after p b) m pos (ap (λ (h : Header). h.next) here)
              (λ e. omega arith),
          round-both p end m small b c (d ∷ bs) here next rest both,
          merge_pass-both b c d bs both,
          eq→== p p refl,
        )
        (prepend-Matches m m' p end (joined b c) (merge_pass (d ∷ bs)) _
          (rw end_of (behind m' chain)) (rw end_of at_p) (λ a lt. ground arith)
          (λ cs e. merge_pass-next_of (after p (joined b c)) d bs cs e))

  -- The round of two blocks of which one is used.
  used_round :
      (fuel p : ℕ) (m : Memory) (b c : Block) (bs : List Block)
      → p ≢ null
      → IsChain m p end (b ∷ c ∷ bs)
      → are_free b c ≡ false
      → Matches m (after p b) end (merge_pass (c ∷ bs)) (merge_loop fuel (after p b) m)
      → Matches m p end (merge_pass (b ∷ c ∷ bs)) (merge_loop (suc fuel) p m)
  used_round fuel p m b c bs pos (here, (next, rest)) one behind =
      let link : (m p).next ≡ after p b = ap (λ (h : Header). h.next) here in
      rw
        (
          merge_loop-next fuel p (after p b) m pos link (λ e. omega arith),
          merge_pass-used b c bs one,
          round-used p end m small b c bs here next rest one,
          link,
        )
        (prepend-Matches m m p end b (merge_pass (c ∷ bs)) _ behind here (λ a lt. refl)
          (λ cs e. merge_pass-next_of (after p b) c bs cs e))

  both_last_round :
      (fuel p : ℕ) (m : Memory) (b c : Block)
      → p ≢ null
      → IsChain m p end (b ∷ c ∷ [])
      → are_free b c ≡ true
      → Matches m p end (merge_pass (b ∷ c ∷ [])) (merge_loop (suc (suc fuel)) p m)
  unfolding merge_pass
  both_last_round fuel p m b c pos (here, (next, rest)) both =
      rw (both_last p end m small b c [] here next rest fuel pos both refl, both) tt

  -- With as much fuel as there are blocks, the loop is a pass over them.
  pub merge_loop-Matches :
      (fuel p : ℕ) (m : Memory) (b : Block) (bs : List Block)
      → p ≢ null
      → IsChain m p end (b ∷ bs)
      → length bs < fuel
      → Matches m p end (merge_pass (b ∷ bs)) (merge_loop fuel p m)
  unfolding merge_pass
  merge_loop-Matches zero p m b bs pos h enough = absurd (omega arith)
  merge_loop-Matches (suc fuel) p m b [] pos (here, rest) enough =
      rw (merge_loop-last fuel p null m pos (ap (λ (h : Header). h.next) here) refl)
        ((here, rest), λ a lt. refl)
  merge_loop-Matches (suc zero) p m b (c ∷ bs) pos h enough = absurd (omega arith)
  merge_loop-Matches (suc (suc fuel)) p m b (c ∷ []) pos h enough =
      elim (Bool-cases (are_free b c)) [
        | inl both ↦ both_last_round fuel p m b c pos h both
        | inr one ↦
            used_round (suc fuel) p m b c [] pos h one (
              merge_loop-Matches (suc fuel) (after p b) m c [] (λ e. omega arith) h.1 (omega arith))
      ]
  merge_loop-Matches (suc (suc fuel)) p m b (c ∷ d ∷ bs) pos h enough =
      elim (Bool-cases (are_free b c)) [
        | inl both ↦ both_round (suc fuel) p m b c d bs pos h both λ m' chain.
            merge_loop-Matches (suc fuel) (after (after p b) c) m' d bs (λ e. omega arith) chain
              (omega arith)
        | inr one ↦ used_round (suc fuel) p m b c (d ∷ bs) pos h one (
            merge_loop-Matches (suc fuel) (after p b) m c (d ∷ bs) (λ e. omega arith) h.1
              (omega arith))
      ]
