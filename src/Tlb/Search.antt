-- ===== src/Tlb/Search.antt =====
-- The first loop of `tlbLRUinsert`, and the search for the oldest entry.
use computersystems_monorepo.Prelude.{
  ℕ, ◌+◌, ◌-◌, ◌≤◌, ◌<◌, ◌≡◌, refl, ◌≢◌, none, some, Bool, true, false, Option, arith, ◌==◌,
  find_from, find_from-next, find_from-some, Bool-cases, inl, inr, repeat_from_inv,
}
use computersystems_monorepo.Tlb.{Scan, tlb_size, scan_step, scan_entries, older, get_oldest_entry}

abbrev pub is_some : Option ℕ → Bool
is_some none = false
is_some (some _) = true

-- What the loop has found out in the first `n` places.
pub record Scanned (pages ages : ℕ → ℕ) (page_number n : ℕ) (c : Scan) : Type 0 where
  pub there : c.already_there ≡ is_some (find_from pages page_number 0 n)
  pub spot : c.free_spot_found ≡ is_some (find_from pages 0 0 n)
  pub index : (j : ℕ) → find_from pages 0 0 n ≡ some j → c.replace_index ≡ j
  pub young : (j : ℕ) → find_from pages page_number 0 n ≡ some j → c.ages j ≡ 0
  pub older : (k : ℕ) → k < n → pages k ≢ page_number → pages k ≢ 0 → c.ages k ≡ ages k + 1
  pub free : (k : ℕ) → pages k ≢ page_number → pages k ≡ 0 → c.ages k ≡ ages k
  pub rest : (k : ℕ) → n ≤ k → c.ages k ≡ ages k

module _ (pages ages : ℕ → ℕ) (page_number : ℕ) (used : page_number ≢ 0) where
  scan_step-Scanned :
      (n : ℕ) (c : Scan)
      → Scanned pages ages page_number n c
      → Scanned pages ages page_number (n + 1) (scan_step pages page_number n c)
  unfolding scan_step
  scan_step-Scanned n c h = record {
    there = ground (arith, h.there, find_from-next pages page_number n);
    spot = ground (arith, h.spot, find_from-next pages 0 n);
    index = λ j e. ground (arith, h.spot, h.index j, find_from-next pages 0 n);
    young = λ j e. ground (
      arith,
      h.there,
      h.young j,
      find_from-next pages page_number n,
      find_from-some pages page_number 0 n j,
    );
    older = λ k lt ne nz. ground (arith, h.older k, h.rest n);
    free = λ k ne z. ground (arith, h.free k);
    rest = λ k le. ground (arith, h.rest k);
  }

  pub scan_entries-Scanned :
      Scanned pages ages page_number tlb_size (scan_entries pages ages page_number)
  unfolding scan_entries find_from
  scan_entries-Scanned =
      repeat_from_inv (Scanned pages ages page_number) _ 0 16 16 _ refl
        (λ k c lo hi h. scan_step-Scanned k c h)
        (record {
          there = refl;
          spot = refl;
          index = λ j e. cc;
          young = λ j e. cc;
          older = λ k lt ne nz. absurd (omega arith);
          free = λ k ne z. refl;
          rest = λ k le. refl;
        })

-- `(index, max)` is the first place of the largest age below `n`.
record IsOldest (ages : ℕ → ℕ) (n : ℕ) (r : ℕ × ℕ) : Type 0 where
  within : r.0 < n
  age : r.1 ≡ ages r.0
  top : (k : ℕ) → k < n → ages k ≤ r.1
  first : (k : ℕ) → k < r.0 → ages k < r.1

older-IsOldest :
    (ages : ℕ → ℕ) (n : ℕ) (r : ℕ × ℕ) → IsOldest ages n r → IsOldest ages (n + 1) (older ages n r)
unfolding older
older-IsOldest ages n (index, max) h = record {
  within = ground (arith, h.within);
  age = ground (arith, h.age);
  top = λ k lt. elim (Bool-cases (k == n)) [
    | inl here ↦ ground arith
    | inr below ↦ ground (arith, h.top k (ground arith))
  ];
  first = λ k lt. ground (arith, h.first k, h.top k);
}

-- `getOldestEntry` returns the first place whose age no other place exceeds.
pub get_oldest_entry_lem :
    (ages : ℕ → ℕ) (n : ℕ)
    → 0 < n
    → (get_oldest_entry ages n < n)
      × ((k : ℕ) → k < n → ages k ≤ ages (get_oldest_entry ages n))
      × ((k : ℕ) → k < get_oldest_entry ages n → ages k < ages (get_oldest_entry ages n))
unfolding get_oldest_entry
get_oldest_entry_lem ages n pos =
    let h =
      repeat_from_inv (IsOldest ages) (older ages) 1 (n - 1) n (0, ages 0) (omega arith)
        (λ k r lo hi. older-IsOldest ages k r)
        (record {
          within = omega arith;
          age = refl;
          top = λ k lt. let zero : k ≡ 0 = omega arith in rw zero (omega arith);
          first = λ k lt. absurd (omega arith);
        }) in
    (h.within, (λ k lt. rw (← h.age) (h.top k lt)), λ k lt. rw (← h.age) (h.first k lt))
