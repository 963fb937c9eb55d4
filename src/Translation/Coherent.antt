-- ===== src/Translation/Coherent.antt =====
-- The invariant of the simulator: the tables agree with each other and memory with the store.
use computersystems_monorepo.Prelude.{
  ℕ, ◌+◌, ◌*◌, ◌≤◌, ◌<◌, ◌≡◌, refl, ap, ◌∙◌, ◌≢◌, none, some, arith, ◌==◌, find_from,
  find_from-some, find_from-none, Option-cases, Bool-cases, inl, inr, AreDistinct, AreBelow,
  pigeonhole, eq→==, fill-lt,
}
use computersystems_monorepo.Tlb.{tlb_size}
use computersystems_monorepo.Tlb.Shift.{AllEntries}
use computersystems_monorepo.Translation.{
  Vm, Store, page_read_size, sign_extend, fread, load_frame, read_from_store, page_fault, no_frame,
  walk, count_fault,
}

-- Frame `frame` of memory is that of page `page`.
abbrev pub Holds : (pages : ℕ → ℕ) → (next_page page frame : ℕ) → Type 0
Holds pages next_page page frame = (frame < next_page) × (pages frame ≡ page)

pub record IsCoherent (store : Store) (s : Vm) : Type 0 where
  pub size : s.tlb.table.size ≡ tlb_size
  pub next_entry : s.tlb.next_entry ≤ tlb_size
  pub frames : s.next_frame ≡ s.next_page
  pub loaded : (i : ℕ) → i < s.next_page → s.page_table.frame_num_arr i ≡ i
  pub below : AreBelow s.page_table.page_num_arr s.next_page 256
  pub distinct : AreDistinct s.page_table.page_num_arr s.next_page
  pub content :
      (i o : ℕ)
      → i < s.next_page
      → o < 256
      → s.dram i o ≡ sign_extend (store.byte (s.page_table.page_num_arr i * 256 + o))
  pub entries : AllEntries (Holds s.page_table.page_num_arr s.next_page) s.tlb.table

-- The store has all of its 256 pages.
abbrev pub IsWhole : Store → Type 0
IsWhole store = 65536 ≤ store.size

-- The page table has room for every page, and memory for every frame.
pub next_page-le : (store : Store) (s : Vm) → IsCoherent store s → s.next_page ≤ 256
next_page-le store s h = pigeonhole 256 s.next_page s.page_table.page_num_arr h.distinct h.below

-- A page that the page table has is in a frame.
pub entry-framed :
    (store : Store) (page i : ℕ) (s : Vm)
    → IsCoherent store s
    → find_from s.page_table.page_num_arr page 0 s.next_page ≡ some i
    → s.page_table.frame_num_arr i ≢ no_frame
entry-framed store page i s h found unframed =
    let lt = find_from-some s.page_table.page_num_arr page 0 s.next_page i found in
    omega (arith, lt, h.loaded i (omega (arith, lt)), next_page-le store s h, unframed)

-- The copied row: the buffer in the first 256 places.
pub load_frame-row :
    (frame : ℕ) (buffer : ℕ → ℕ) (dram : ℕ → ℕ → ℕ) (o : ℕ)
    → o < 256
    → load_frame frame buffer dram frame o ≡ sign_extend (buffer o)
unfolding load_frame
load_frame-row frame buffer dram o h =
    rw (eq→== frame frame refl) (fill-lt (λ i. sign_extend (buffer i)) (dram frame) 256 o h)

pub load_frame-other :
    (frame : ℕ) (buffer : ℕ → ℕ) (dram : ℕ → ℕ → ℕ) (f o : ℕ)
    → f ≢ frame
    → load_frame frame buffer dram f o ≡ dram f o
unfolding load_frame
load_frame-other frame buffer dram f o ne = ground arith

-- A read inside the store fills the buffer.
pub fread-eq-byte :
    (store : Store) (page : ℕ) (buffer : ℕ → ℕ) (o : ℕ)
    → IsWhole store
    → page < 256
    → o < 256
    → fread store (page * page_read_size) buffer o ≡ store.byte (page * 256 + o)
unfolding fread
fread-eq-byte store page buffer o whole small lt = ground arith

-- What `locate` leaves: a coherent machine, and the page's own frame.
abbrev pub Located : Store → ℕ → Vm × ℕ → Type 0
Located store page (s, frame) =
    IsCoherent store s × Holds s.page_table.page_num_arr s.next_page page frame

-- The fault: the new page gets the next frame, and the frame the page's bytes.
module _ (store : Store) (whole : IsWhole store) (page : ℕ) (small : page < 256) (s : Vm) where
  read_from_store-IsCoherent :
      IsCoherent store s
      → find_from s.page_table.page_num_arr page 0 s.next_page ≡ none
      → Located store page (read_from_store store page s, s.next_frame)
  unfolding read_from_store
  read_from_store-IsCoherent h fresh = (
    record {
      size = h.size;
      next_entry = h.next_entry;
      frames = omega (arith, h.frames);
      loaded = λ i lt. ground (arith, h.loaded i, h.frames);
      below = λ i lt. ground (arith, h.below i);
      distinct = λ i j lt hj. ground (arith, h.distinct i j, new i);
      content = λ i o lt ho. elim (Bool-cases (s.next_page == i)) [
        | inl here ↦
            let at_frame : i ≡ s.next_frame = ground (arith, h.frames) in
            rw (here, at_frame)
              (load_frame-row s.next_frame _ s.dram o ho
                ∙ ap sign_extend (fread-eq-byte store page s.file_read_buffer o whole small ho))
        | inr other ↦
            rw (other, load_frame-other s.next_frame _ s.dram i o (ground (arith, h.frames)))
              (h.content i o (ground arith) ho)
      ];
      entries = λ i lt nz. ground (arith, h.entries i lt nz);
    },
    (omega (arith, h.frames), ground (arith, h.frames)),
  )
    where
      new : (i : ℕ) → i < s.next_page → s.page_table.page_num_arr i ≢ page
      new i lt =
          find_from-none s.page_table.page_num_arr page 0 s.next_page i fresh (omega arith)
            (omega arith)

pub walk-hit :
    (store : Store) (page i : ℕ) (s : Vm)
    → find_from s.page_table.page_num_arr page 0 s.next_page ≡ some i
    → s.page_table.frame_num_arr i ≢ no_frame
    → walk store page s ≡ (s, s.page_table.frame_num_arr i)
unfolding walk
walk-hit store page i s found framed = ground arith

pub walk-fault :
    (store : Store) (page : ℕ) (s : Vm)
    → find_from s.page_table.page_num_arr page 0 s.next_page ≡ none
    → walk store page s ≡ (read_from_store store page (count_fault s), s.next_frame)
unfolding walk page_fault read_from_store
walk-fault store page s fresh = ground arith

count_fault-IsCoherent :
    (store : Store) (s : Vm) → IsCoherent store s → IsCoherent store (count_fault s)
unfolding count_fault
count_fault-IsCoherent store s h = record {
  size = h.size;
  next_entry = h.next_entry;
  frames = h.frames;
  loaded = h.loaded;
  below = h.below;
  distinct = h.distinct;
  content = h.content;
  entries = h.entries;
}

module _ (store : Store) (whole : IsWhole store) (page : ℕ) (small : page < 256) where
  pub walk-Located : (s : Vm) → IsCoherent store s → Located store page (walk store page s)
  unfolding count_fault
  walk-Located s h = elim (Option-cases (find_from s.page_table.page_num_arr page 0 s.next_page)) [
    | inl fresh ↦ rw (walk-fault store page s fresh) (
        read_from_store-IsCoherent store whole page small (count_fault s)
          (count_fault-IsCoherent store s h) fresh)
    | inr (i, found) ↦
        let f = find_from-some s.page_table.page_num_arr page 0 s.next_page i found in
        rw
          (
            walk-hit store page i s found (entry-framed store page i s h found),
            h.loaded i (omega (arith, f)),
          )
          (h, (omega arith, f.2))
  ]
