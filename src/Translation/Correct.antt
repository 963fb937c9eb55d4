-- ===== src/Translation/Correct.antt =====
-- Translation keeps the invariant, and returns the byte of the backing store.
use computersystems_monorepo.Prelude.{
  ℕ, ◌+◌, ◌*◌, ◌/◌, ◌%◌, ◌≤◌, ◌<◌, ◌≡◌, sym, ap, ◌∙◌, ◌≢◌, none, some, arith, ◌==◌, ==→eq,
  Bool-cases, Option-cases, inl, inr,
}
use computersystems_monorepo.Tlb.{Tlb, tlb_size, Algo, insert, lookup, count_hit, count_miss}
use computersystems_monorepo.Tlb.Insert.{
  lookup-some, insert-AllEntries, insert-SameCounters, insert-next_le,
}
use computersystems_monorepo.Translation.{
  Vm, Store, walk, no_frame, locate, translate_address, to_char, sign_extend,
}
use computersystems_monorepo.Translation.Address.{to_char-sign_extend, physical_address-eq}
use computersystems_monorepo.Translation.Coherent.{
  IsCoherent, IsWhole, Holds, next_page-le, walk-Located,
}

-- The TLB may be replaced by one whose entries satisfy the invariant.
with_tlb-IsCoherent :
    (store : Store) (s : Vm) (t : Tlb)
    → IsCoherent store s
    → t.table.size ≡ tlb_size
    → t.next_entry ≤ tlb_size
    → ((i : ℕ)
        → i < tlb_size
        → t.table.page_num_arr i ≢ 0
        → Holds s.page_table.page_num_arr s.next_page
            (t.table.page_num_arr i)
            (t.table.frame_num_arr i))
    → IsCoherent store (record s { tlb = t })
with_tlb-IsCoherent store s t h size bound entries = record {
  size = size;
  next_entry = bound;
  frames = h.frames;
  loaded = h.loaded;
  below = h.below;
  distinct = h.distinct;
  content = h.content;
  entries = entries;
}

pub locate-hit :
    (store : Store) (page i : ℕ) (s : Vm)
    → lookup page s.tlb ≡ some i
    → s.tlb.table.frame_num_arr i ≢ no_frame
    → locate store page s ≡ (record s { tlb = count_hit s.tlb }, s.tlb.table.frame_num_arr i)
unfolding locate
locate-hit store page i s hit framed = ground arith

pub locate-unframed :
    (store : Store) (page i : ℕ) (s : Vm)
    → lookup page s.tlb ≡ some i
    → s.tlb.table.frame_num_arr i ≡ no_frame
    → locate store page s ≡ walk store page (record s { tlb = count_miss (count_hit s.tlb) })
unfolding locate
locate-unframed store page i s hit unframed = ground arith

pub locate-miss :
    (store : Store) (page : ℕ) (s : Vm)
    → lookup page s.tlb ≡ none
    → locate store page s ≡ walk store page (record s { tlb = count_miss s.tlb })
unfolding locate
locate-miss store page s miss = ground arith

module _ (store : Store) (whole : IsWhole store) (page : ℕ) (small : page < 256) (s : Vm) where
  -- For page 0 a hit says nothing of the frame.
  pub locate-Located :
      IsCoherent store s
      → let (s', frame) = locate store page s in
        IsCoherent store s' × (page ≢ 0 → Holds s'.page_table.page_num_arr s'.next_page page frame)
  unfolding count_hit count_miss
  locate-Located h = elim (Option-cases (lookup page s.tlb)) [
    | inl miss ↦ rw (locate-miss store page s miss) (
        let (kept, held) =
          walk-Located store whole page small (record s { tlb = count_miss s.tlb })
            (with_tlb-IsCoherent store s (count_miss s.tlb) h h.size h.next_entry h.entries) in
        (kept, λ _. held))
    | inr (i, hit) ↦
        let (lt, e) = lookup-some page i s.tlb hit in
        elim (Bool-cases (s.tlb.table.frame_num_arr i == no_frame)) [
          | inl none_ ↦ rw (locate-unframed store page i s hit (==→eq _ _ none_)) (
              let (kept, held) =
                walk-Located store whole page small
                  (record s { tlb = count_miss (count_hit s.tlb) })
                  (with_tlb-IsCoherent store s (count_miss (count_hit s.tlb)) h h.size h.next_entry
                    h.entries) in
              (kept, λ _. held))
          | inr framed ↦ rw (locate-hit store page i s hit (λ e. ground (arith, framed, e))) (
            with_tlb-IsCoherent store s (count_hit s.tlb) h h.size h.next_entry h.entries,
            λ used.
                let held = h.entries i (omega (arith, h.size, lt)) (λ z. used (sym e ∙ z)) in
                (held.0, held.1 ∙ e),
          )
        ]
  ]

-- A hit on a page other than 0 gives a frame.
pub hit-framed :
    (store : Store) (page i : ℕ) (s : Vm)
    → IsCoherent store s
    → page ≢ 0
    → lookup page s.tlb ≡ some i
    → s.tlb.table.frame_num_arr i ≢ no_frame
hit-framed store page i s h used hit unframed =
    let (lt, e) = lookup-some page i s.tlb hit in
    let held = h.entries i (omega (arith, h.size, lt)) (λ z. used (sym e ∙ z)) in
    omega (arith, held.0, next_page-le store s h, unframed)

-- The bytes of the store are bytes.
abbrev pub AreBytes : Store → Type 0
AreBytes store = (i : ℕ) → store.byte i < 256

module _ (algo : Algo) (store : Store) (whole : IsWhole store) (page offset : ℕ)
    (small : page < 256) (s : Vm) (h : IsCoherent store s) where
  -- Every translation keeps the invariant, that of page 0 included.
  pub translate_address-IsCoherent : IsCoherent store (translate_address algo store page offset s).0
  unfolding translate_address
  translate_address-IsCoherent =
      let (s', frame) = locate store page s in
      let (kept, held) = locate-Located store whole page small s h in
      let same = insert-SameCounters page frame s'.tlb kept.next_entry algo in
      with_tlb-IsCoherent store s' (insert algo page frame s'.tlb) kept (same.size ∙ kept.size)
        (insert-next_le page frame s'.tlb kept.next_entry algo)
        (insert-AllEntries page frame s'.tlb kept.next_entry algo
          (Holds s'.page_table.page_num_arr s'.next_page) kept.entries held)

  -- The value of an address outside page 0 is its byte in the store, and its physical address lies
  -- in the frame that the page table gives the page.
  pub translate_address_lem :
      AreBytes store
      → page ≢ 0
      → offset < 256
      → let (s', t) = translate_address algo store page offset s in
        (t.value ≡ store.byte (page * 256 + offset))
        × (t.physical_address % 256 ≡ offset)
        × Holds s'.page_table.page_num_arr s'.next_page page (t.physical_address / 256)
  unfolding translate_address
  translate_address_lem bytes used fits =
      let (s', frame) = locate store page s in
      let (kept, held) = locate-Located store whole page small s h in
      let (lt, e) = held used in
      let address = physical_address-eq frame offset fits in
      let in_frame : (frame * 256 + offset) / 256 ≡ frame = omega arith in
      (
        ap to_char (kept.content frame offset lt fits)
            ∙ ap (λ p. to_char (sign_extend (store.byte (p * 256 + offset)))) e
            ∙ to_char-sign_extend _ (bytes (page * 256 + offset)),
        omega (arith, address),
        rw (address, in_frame) (lt, e),
      )
