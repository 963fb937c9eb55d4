-- ===== src/VirtualMem/Frames.antt =====
-- A page reads back as it was written, and two pages can come to share a frame.
use computersystems_monorepo.Prelude.{
  ℕ, suc, ◌<◌, ◌≡◌, ◌≢◌, sym, refl, arith, Bool, true, ◌==◌, update, some, find_from,
  find_from-some, find_from-none, Option-cases, Bool-cases, inl, inr, eq→==, ne→==, ==→eq,
}
use computersystems_monorepo.VirtualMem.{
  num_pages, absent, Buffer, Memory, ok, init_virtual_memory, read_page, load_and_write, write_page,
}

module _ (reads : ℕ → Bool) (p : ℕ) (s : Memory) where
  read_frame :
      (frame : ℕ)
      → s.page_table p ≡ frame
      → frame ≢ absent
      → read_page reads p s ≡ ok (s.frames frame)
  unfolding read_page
  read_frame frame e ne = rw (e, ne→== frame absent ne) refl

  module _ (buf : Buffer) where
    -- The memory after a page was written that had a frame, and after one was given the frame `f`.
    abbrev in_place : Memory
    in_place = record s { frames = update s.frames (s.page_table p) buf }

    abbrev placed : ℕ → Memory
    placed f = record s {
      page_table = update s.page_table p f;
      frames = update (update s.frames f (s.swap p)) f buf;
    }

    write_present : s.page_table p ≢ absent → write_page reads p buf s ≡ ok in_place
    unfolding write_page
    write_present ne = rw (ne→== (s.page_table p) absent ne) refl

    write_absent :
        (f : ℕ)
        → s.page_table p ≡ absent
        → reads p ≡ true
        → find_from s.page_table absent 0 num_pages ≡ some f
        → write_page reads p buf s ≡ ok (placed f)
    unfolding write_page load_and_write
    write_absent f e can found = rw (e, found, load_and_write, can) refl

    read_in_place : s.page_table p ≢ absent → read_page reads p in_place ≡ ok buf
    unfolding read_page
    read_in_place ne =
        rw (ne→== (s.page_table p) absent ne, eq→== (s.page_table p) (s.page_table p) refl) refl

    read_placed : (f : ℕ) → f ≢ absent → read_page reads p (placed f) ≡ ok buf
    unfolding read_page
    read_placed f ne = rw (eq→== p p refl, ne→== f absent ne, eq→== f f refl) refl

-- Where the swap file can be read, `write_page` of a page of the table returns, and `read_page` of the
-- same page then gives the bytes written.
pub read_page-write_page :
    (reads : ℕ → Bool) (p : ℕ) (buf : Buffer) (s : Memory)
    → p < num_pages
    → reads p ≡ true
    → (s' : Memory) × (write_page reads p buf s ≡ ok s') × (read_page reads p s' ≡ ok buf)
read_page-write_page reads p buf s lt can = elim (Bool-cases (s.page_table p == absent)) [
  | inl no_frame ↦
      let none_yet = ==→eq (s.page_table p) absent no_frame in
      elim (Option-cases (find_from s.page_table absent 0 num_pages)) [
        | inl full ↦ absurd (
            find_from-none s.page_table absent 0 num_pages p full (omega arith) (omega arith)
              none_yet)
        | inr (f, found) ↦
            let (_, below, _) = find_from-some s.page_table absent 0 num_pages f found in
            (
              placed reads p s buf f,
              write_absent reads p s buf f none_yet can found,
              read_placed reads p s buf f (λ e. omega (arith, below, e)),
            )
      ]
  | inr frame ↦
      let ne : s.page_table p ≢ absent = λ e. ground (arith, e) in
      (in_place reads p s buf, write_present reads p s buf ne, read_in_place reads p s buf ne)
]

found_zero : (arr : ℕ → ℕ) (n : ℕ) → arr 0 ≡ absent → find_from arr absent 0 (suc n) ≡ some 0
unfolding find_from
found_zero arr n e = rw (e, find_from) refl

-- Where the system calls work, `init_virtual_memory` makes a memory in which a page other than page 0 that is written first gets frame 0, and page 0, written
-- next, gets the same frame: the first page then reads as page 0.
pub write_page-shares :
    (reads : ℕ → Bool) (q : ℕ) (buf other : Buffer) (frames swap : ℕ → Buffer)
    → q ≢ 0
    → reads q ≡ true
    → reads 0 ≡ true
    → (s : Memory) × (init_virtual_memory (some frames) true true swap ≡ ok s)
      × (s₁ : Memory) × (write_page reads q buf s ≡ ok s₁)
      × (s₂ : Memory) × (write_page reads 0 other s₁ ≡ ok s₂)
      × (read_page reads q s₂ ≡ ok other)
unfolding init_virtual_memory
write_page-shares reads q buf other frames swap ne can can_zero =
    let s : Memory = record { page_table = λ _. absent; frames = frames; swap = swap } in
    let s₁ = placed reads q s buf 0 in
    let zero_absent : s₁.page_table 0 ≡ absent = rw (ne→== q 0 ne) refl in
    let s₂ = placed reads 0 s₁ other 0 in
    let frame : s₂.page_table q ≡ 0 = rw (ne→== 0 q (λ e. ne (sym e)), eq→== q q refl) refl in
    (
      s,
      refl,
      s₁,
      write_absent reads q s buf 0 refl can (found_zero (λ _. absent) 1023 refl),
      s₂,
      write_absent reads 0 s₁ other 0 zero_absent can_zero
          (found_zero s₁.page_table 1023 zero_absent),
      read_frame reads q s₂ 0 frame (λ e. omega arith),
    )
