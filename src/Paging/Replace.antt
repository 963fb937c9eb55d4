-- ===== src/Paging/Replace.antt =====
-- `replace_page` gives the place of the least recently used page to the new page.
use computersystems_monorepo.Prelude.{
  ℕ, zero, suc, ◌+◌, ◌≤◌, ◌<◌, ◌≡◌, ◌≢◌, ◌⊎◌, ==→eq, eq→==, ne→==, refl, ap, ◌∙◌, arith, true,
  false, ltb, ltb→lt, Bool-cases, inl, inr, repeat_from_inv, ◌==◌, update,
}
use computersystems_monorepo.Paging.{
  slt, int_max, minus_one, Page, PageTable, Victim, evict_step, find_victim, rename_page,
  replace_page, find_lru_page,
}
use computersystems_monorepo.Paging.Lru.{
  IsFirstOldest, slt_below, slt_same, time, new-IsFirstOldest, old-IsFirstOldest, find_lru_page_lem,
}

slt_trans : (a b c : ℕ) → slt a b ≡ true → slt b c ≡ true → slt a c ≡ true
slt_trans a b c first second = ground arith

abbrev victim : Page → Victim
victim p = record { evicted_page_id = p.id; oldest_access_time = p.last_access_time }

abbrev nobody : Victim
nobody = record { evicted_page_id = minus_one; oldest_access_time = int_max }

-- What the first loop knows after `n` places.
abbrev Knows : (ℕ → Page) → ℕ → Victim → Type 0
Knows pages n v =
    ((m : ℕ) × IsFirstOldest pages n m
      × (slt (time pages m) int_max ≡ true)
      × (v ≡ victim (pages m)))
    ⊎ (((i : ℕ) → i < n → slt (time pages i) int_max ≡ false) × (v ≡ nobody))

module _ (pages : ℕ → Page) (n : ℕ) (v : Victim) where
  evict-new :
      slt (time pages n) v.oldest_access_time ≡ true → evict_step pages n v ≡ victim (pages n)
  evict-new e = rw e refl

  evict-old : slt (time pages n) v.oldest_access_time ≡ false → evict_step pages n v ≡ v
  evict-old e = rw e refl

  evict-some :
      (m : ℕ)
      → IsFirstOldest pages n m
      → slt (time pages m) int_max ≡ true
      → v ≡ victim (pages m)
      → Knows pages (n + 1) (evict_step pages n v)
  evict-some m h early e =
      let at : v.oldest_access_time ≡ time pages m = ap (λ (w : Victim). w.oldest_access_time) e in
      elim (Bool-cases (slt (time pages n) (time pages m))) [
        | inl less ↦ inl (
          n,
          new-IsFirstOldest pages n m h less,
          slt_trans (time pages n) (time pages m) int_max less early,
          evict-new (rw at less),
        )
        | inr more ↦ inl (m, old-IsFirstOldest pages n m h more, early, evict-old (rw at more) ∙ e)
      ]

  evict-none :
      ((i : ℕ) → i < n → slt (time pages i) int_max ≡ false)
      → v ≡ nobody
      → Knows pages (n + 1) (evict_step pages n v)
  evict-none late e =
      let at : v.oldest_access_time ≡ int_max = ap (λ (w : Victim). w.oldest_access_time) e in
      elim (Bool-cases (slt (time pages n) int_max)) [
        | inl less ↦
            let below = λ (i : ℕ) (hi : i < n).
              slt_below (time pages n) int_max (time pages i) less (late i hi) in
            inl (
              n,
              (
                omega arith,
                λ i hi. elim (Bool-cases (i == n)) [
                  | inl last ↦ let here = ==→eq i n last in rw here (slt_same (time pages n))
                  | inr before ↦ (below i (ground arith)).1
                ],
                λ i hi. (below i hi).0,
              ),
              less,
              evict-new (rw at less),
            )
        | inr more ↦ inr (
          λ i hi. elim (Bool-cases (i == n)) [
            | inl last ↦ let here = ==→eq i n last in rw here more
            | inr before ↦ late i (ground arith)
          ],
          evict-old (rw at more) ∙ e,
        )
      ]

find_victim-Knows : (t : PageTable) → Knows t.pages t.num (find_victim t)
unfolding find_victim
find_victim-Knows t =
    repeat_from_inv (Knows t.pages) (evict_step t.pages) 0 t.num t.num nobody (omega arith)
      (λ n v lo hi h. elim h [
        | inl (m, oldest, early, e) ↦ evict-some t.pages n v m oldest early e
        | inr (late, e) ↦ evict-none t.pages n v late e
      ])
      (inr (λ i hi. absurd (omega arith), refl))

oldest_unique :
    (pages : ℕ → Page) (n a b : ℕ) → IsFirstOldest pages n a → IsFirstOldest pages n b → a ≡ b
oldest_unique pages n a b (below, least, first) (below', least', first') =
    elim (Bool-cases (ltb a b)) [
      | inl lt ↦ absurd (ground (arith, first' a (ltb→lt a b lt), least b below'))
      | inr ge ↦ elim (Bool-cases (a == b)) [
        | inl same ↦ ==→eq a b same
        | inr other ↦ absurd (ground (arith, first b (ground arith), least' a below))
      ]
    ]

-- The second loop changes the first place with the old id.
rename_page-at :
    (old new now i n m : ℕ) (pages : ℕ → Page)
    → i ≤ m
    → m < i + n
    → (pages m).id ≡ old
    → ((j : ℕ) → i ≤ j → j < m → (pages j).id ≢ old)
    → rename_page old new now i n pages
      ≡ update pages m (record (pages m) { id = new; last_access_time = now })
unfolding rename_page
rename_page-at old new now i zero m pages low high here before = absurd (omega arith)
rename_page-at old new now i (suc n) m pages low high here before = elim (Bool-cases (i == m)) [
  | inl this ↦ let same = ==→eq i m this in rw (same, eq→== (pages m).id old here) refl
  | inr later ↦ rw (ne→== (pages i).id old (before i (omega arith) (ground arith))) (
      rename_page-at old new now (i + 1) n m pages (ground arith) (omega arith) here
        (λ j lo hi. before j (omega arith) hi))
]

-- In a table whose pages have distinct ids, and of which one was last accessed before the end of time
-- on `int`, `replace_page` evicts the page that `find_lru_page` finds, returns its id, and gives its
-- place, and no other, to the new page at the present time.
pub replace_page_lem :
    (page_id now j : ℕ) (t : PageTable)
    → j < t.num
    → slt (t.pages j).last_access_time int_max ≡ true
    → ((a b : ℕ) → a < b → b < t.num → (t.pages a).id ≢ (t.pages b).id)
    → let m = find_lru_page t in
      ((replace_page page_id now t).1 ≡ (t.pages m).id)
      × ((replace_page page_id now t).0.pages
          ≡ update t.pages m (record (t.pages m) { id = page_id; last_access_time = now }))
unfolding replace_page
replace_page_lem page_id now j t lt early distinct = elim (find_victim-Knows t) [
  | inl (m, oldest, _, e) ↦
      let lru =
        oldest_unique t.pages t.num m (find_lru_page t) oldest
          (find_lru_page_lem t (omega arith)) in
      let id : (find_victim t).evicted_page_id ≡ (t.pages m).id =
        ap (λ (w : Victim). w.evicted_page_id) e in
      rw (← lru, id)
        (
          refl,
          rename_page-at (t.pages m).id page_id now 0 t.num m t.pages (omega arith)
              (omega (arith, oldest.0)) refl (λ i lo hi. distinct i m hi oldest.0),
        )
  | inr (late, _) ↦ absurd (ground (arith, late j lt))
]
