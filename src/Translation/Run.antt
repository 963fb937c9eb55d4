-- ===== src/Translation/Run.antt =====
-- A whole run of the simulator over an input file: values, statistics, and room for the tables.
use computersystems_monorepo.Prelude.{
  ℕ, ◌<◌, ◌/◌, ◌%◌, ◌^◌, ◌≡◌, refl, ◌∙◌, ap, ◌≢◌, arith, List, [], ◌∷◌, fill-lt,
}
use computersystems_monorepo.Tlb.{tlb_size, Algo, create_vm_table}
use computersystems_monorepo.Translation.{
  Vm, Store, Translated, translate_address, translate_all, start, get_page_number, get_offset,
  page_mask, offset_mask, shift,
}
use computersystems_monorepo.Translation.Address.{address_split, get_page_number-eq}
use computersystems_monorepo.Translation.Coherent.{IsCoherent, IsWhole, next_page-le}
use computersystems_monorepo.Translation.Correct.{
  AreBytes, translate_address-IsCoherent, translate_address_lem,
}

-- The machine that `main` starts with, whatever the allocated memory holds.
pub start-IsCoherent :
    (store : Store) (tlb_memory page_memory : ℕ → ℕ → ℕ) (buffer : ℕ → ℕ)
    → IsCoherent store (start tlb_memory page_memory buffer)
unfolding start create_vm_table
start-IsCoherent store tlb_memory page_memory buffer = record {
  size = refl;
  next_entry = omega arith;
  frames = refl;
  loaded = λ i lt. absurd (omega arith);
  below = λ i lt. absurd (omega arith);
  distinct = λ i j lt hj. absurd (omega arith);
  content = λ i o lt ho. absurd (omega arith);
  entries = λ i lt used. absurd (used (fill-lt (λ _. 0) (tlb_memory 0) tlb_size i lt));
}

-- Page 0 is that whose number marks an empty place in the TLB.
abbrev pub AreOutside : List ℕ → Type 0
AreOutside [] = Unit
AreOutside (v ∷ vs) = (v / 256 % 256 ≢ 0) × AreOutside vs

-- Outputs against inputs: one for each address, with the byte that the low 16 bits of the address
-- select, and an address in the 256 frames of `dram`.
abbrev pub AreValues : Store → List ℕ → List Translated → Type 0
AreValues store [] [] = Unit
AreValues store [] (t ∷ ts) = ⊥
AreValues store (v ∷ vs) [] = ⊥
AreValues store (v ∷ vs) (t ∷ ts) =
    (t.value ≡ store.byte (v % 2 ^ 16)) × (t.physical_address < 65536) × AreValues store vs ts

module _ (algo : Algo) (store : Store) (whole : IsWhole store) where
  -- From a coherent machine, with a store that has its 65536 bytes, a run over addresses outside
  -- page 0 keeps the machine coherent and returns for every address the byte of the store that its
  -- low 16 bits select, read at a physical address inside `dram`.
  pub translate_all-keeps :
      (addresses : List ℕ) (s : Vm)
      → AreOutside addresses
      → IsCoherent store s
      → AreBytes store
      → let (s', ts) = translate_all algo store addresses s in
        IsCoherent store s' × AreValues store addresses ts
  unfolding translate_all
  translate_all-keeps [] s outside h bytes = (h, tt)
  translate_all-keeps (v ∷ vs) s outside h bytes =
      let page = get_page_number page_mask v shift in
      let offset = get_offset offset_mask v in
      let a = address_split v in
      let kept = translate_address-IsCoherent algo store whole page offset a.0 s h in
      let (last, values) =
        translate_all-keeps vs (translate_address algo store page offset s).0 outside.1 kept
          bytes in
      let (value, _, held) =
        translate_address_lem algo store whole page offset a.0 s h bytes
          (λ z. outside.0 (omega (arith, z, get_page_number-eq v))) a.1 in
      let frames = next_page-le store _ kept in
      (last, (value ∙ ap store.byte a.2, omega (arith, held.0, frames), values))
