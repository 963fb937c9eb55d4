-- ===== src/Tlb/Shift.antt =====
-- Entries of the TLB under one write and under the moving loop of `tlbFIFOinsert`.
use computersystems_monorepo.Prelude.{
  ℕ, ◌+◌, ◌≤◌, ◌<◌, ◌≡◌, refl, ◌≢◌, ◌&&◌, arith, ltb, leb, ◌==◌, if◌then◌else◌, repeat_from_inv,
  Bool-cases, inl, inr,
}
use computersystems_monorepo.Tlb.{VmTable, tlb_size, put_entry, shift_entries}

-- Every entry whose page number is not the mark of an empty place satisfies `Q`.
abbrev pub AllEntries : (ℕ → ℕ → Type 0) → VmTable → Type 0
AllEntries Q t =
    (i : ℕ) → i < tlb_size → t.page_num_arr i ≢ 0 → Q (t.page_num_arr i) (t.frame_num_arr i)

-- The fields other than the entries.
pub record SameCounters (t u : VmTable) : Type 0 where
  pub size : u.size ≡ t.size
  pub faults : u.page_fault_count ≡ t.page_fault_count
  pub hits : u.tlb_hit_count ≡ t.tlb_hit_count
  pub misses : u.tlb_miss_count ≡ t.tlb_miss_count

-- Places `first` to `last - 1` of `u` hold what stood one place on in `t`; the rest is the same.
pub record Shifted (t : VmTable) (first last : ℕ) (u : VmTable) : Type 0 where
  pub pages :
      (k : ℕ)
      → u.page_num_arr k
        ≡ (if leb first k && ltb k last then t.page_num_arr (k + 1) else t.page_num_arr k)
  pub frames :
      (k : ℕ)
      → u.frame_num_arr k
        ≡ (if leb first k && ltb k last then t.frame_num_arr (k + 1) else t.frame_num_arr k)
  pub same : SameCounters t u

shift_step-Shifted :
    (t : VmTable) (first k : ℕ) (u : VmTable)
    → first ≤ k
    → Shifted t first k u
    → Shifted t first (k + 1) (put_entry k (u.page_num_arr (k + 1)) (u.frame_num_arr (k + 1)) u)
unfolding put_entry
shift_step-Shifted t first k u le h = record {
  pages = λ j. ground (arith, h.pages j, h.pages (k + 1));
  frames = λ j. ground (arith, h.frames j, h.frames (k + 1));
  same = record {
    size = h.same.size;
    faults = h.same.faults;
    hits = h.same.hits;
    misses = h.same.misses;
  };
}

pub shift_entries-Shifted :
    (t : VmTable) (first n last : ℕ)
    → first + n ≡ last
    → Shifted t first last (shift_entries first n t)
unfolding shift_entries
shift_entries-Shifted t first n last e =
    repeat_from_inv (Shifted t first) _ first n last t e
      (λ k u lo hi h. shift_step-Shifted t first k u lo h)
      (record {
        pages = λ k. ground arith;
        frames = λ k. ground arith;
        same = record { size = refl; faults = refl; hits = refl; misses = refl };
      })

module _ (Q : ℕ → ℕ → Type 0) (t : VmTable) (all : AllEntries Q t) where
  pub put_entry-AllEntries :
      (i page_number frame_number : ℕ)
      → (page_number ≢ 0 → Q page_number frame_number)
      → AllEntries Q (put_entry i page_number frame_number t)
  unfolding put_entry
  put_entry-AllEntries i page_number frame_number new k hk = elim (Bool-cases (i == k)) [
    | inl here ↦ rw here new
    | inr other ↦ rw other (all k hk)
  ]

  pub Shifted-AllEntries :
      (first last : ℕ) (u : VmTable) → last < tlb_size → Shifted t first last u → AllEntries Q u
  Shifted-AllEntries first last u fits h k hk =
      rw (h.pages k, h.frames k)
        (elim (Bool-cases (leb first k && ltb k last)) [
          | inl moved ↦ rw moved (all (k + 1) (ground arith))
          | inr kept ↦ rw kept (all k hk)
        ])
