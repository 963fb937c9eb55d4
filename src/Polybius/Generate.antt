-- ===== src/Polybius/Generate.antt =====
-- `generateTable` puts every letter of the alphabet into one cell, and ends where `rand` is fair.
use mathlib.Core.Option.{some-injective, none-ne-some}
use computersystems_monorepo.Prelude.{
  ℕ, zero, suc, ◌+◌, ◌%◌, ◌≤◌, ◌<◌, ◌≡◌, ◌≢◌, ◌∙◌, ap, sym, subst, refl, arith, false, ◌==◌, update,
  some, Option-cases, Bool-cases, inl, inr, ne→==, AreDistinct, AreBelow, missing, onto,
}
use computersystems_monorepo.Polybius.{
  Table, cells, alphabet, random_int, Generator, draw, fill_cells, generate_table,
}

-- What is left and what is in the table after `k` cells, with `idx i` the letter drawn for cell `i`.
record IsPart (idx : ℕ → ℕ) (k : ℕ) (g : Generator) : Type 0 where
  distinct : AreDistinct idx k
  below : AreBelow idx k 25
  in_table : (i : ℕ) → i < k → g.table i ≡ alphabet (idx i)
  left : (r : ℕ) → r < 25 → ((i : ℕ) → i < k → idx i ≢ r) → g.tmp r ≡ alphabet r
  taken : (i : ℕ) → i < k → g.tmp (idx i) ≡ 0

-- A draw that ends has found a letter that is left.
draw-some :
    (rand : ℕ → ℕ) (fuel k : ℕ) (g g' : Generator)
    → draw rand fuel k g ≡ some g'
    → (r : ℕ) × (r < 25)
      × (g.tmp r ≢ 0)
      × (g'.tmp ≡ update g.tmp r 0)
      × (g'.table ≡ update g.table k (g.tmp r))
unfolding draw random_int
draw-some rand zero k g g' e = absurd (none-ne-some _ e)
draw-some rand (suc fuel) k g g' e = elim (Bool-cases (g.tmp (rand g.calls % 25 + 0) == 0)) [
  | inl gone ↦ draw-some rand fuel k (record g { calls = g.calls + 1 }) g' (rw (gone, draw) at e)
  | inr found ↦
      let same = some-injective _ _ (rw (found, draw) at e) in
      (
        rand g.calls % 25 + 0,
        omega arith,
        λ z. ground arith,
        sym (ap (λ (h : Generator). h.tmp) same),
        sym (ap (λ (h : Generator). h.table) same),
      )
]

module _ (idx : ℕ → ℕ) (k r : ℕ) (g g' : Generator) (part : IsPart idx k g) (lt : r < 25)
    (there : g.tmp r ≢ 0) (tmp : g'.tmp ≡ update g.tmp r 0)
    (table : g'.table ≡ update g.table k (g.tmp r)) where
  -- A letter that is left was not drawn before.
  is_new : (i : ℕ) → i < k → idx i ≢ r
  is_new i hi e = there (ap g.tmp (sym e) ∙ part.taken i hi)

  IsPart-suc : IsPart (update idx k r) (k + 1) g'
  IsPart-suc = record {
    distinct = λ i j lo hi. ground (arith, part.distinct i j, is_new i);
    below = λ i hi. ground (arith, part.below i);
    in_table = λ i hi. rw table (elim (Bool-cases (k == i)) [
      | inl here ↦ rw here (part.left r lt is_new)
      | inr other ↦ rw other (part.in_table i (ground arith))
    ]);
    left = λ s hs free.
        let old = part.left s hs (λ i hi e. ground (arith, free i (omega arith))) in
        rw tmp (ground (arith, free k (omega arith), old));
    taken = λ i hi. rw tmp (ground (arith, part.taken i));
  }

fill_cells-IsPart :
    (rand : ℕ → ℕ) (fuel k n end : ℕ) (idx : ℕ → ℕ) (g g' : Generator)
    → fill_cells rand fuel k n g ≡ some g'
    → k + n ≡ end
    → IsPart idx k g
    → (idx' : ℕ → ℕ) × IsPart idx' end g'
unfolding fill_cells
fill_cells-IsPart rand fuel k zero end idx g g' e size part =
    let all : k ≡ end = omega (arith, size) in
    (idx, subst (IsPart idx end) (some-injective _ _ e) (subst (λ x. IsPart idx x g) all part))
fill_cells-IsPart rand fuel k (suc n) end idx g g' e size part =
    elim (Option-cases (draw rand fuel k g)) [
      | inl never ↦ absurd (none-ne-some _ (rw (never, fill_cells) at e))
      | inr (h, drawn) ↦
          let (r, lt, there, tmp, table) = draw-some rand fuel k g h drawn in
          fill_cells-IsPart rand fuel (k + 1) n end (update idx k r) h g'
            (rw (drawn, fill_cells) at e) (omega (arith, size))
            (IsPart-suc idx k r g h part lt there tmp table)
    ]

alphabet_injective : (r s : ℕ) → r < 25 → s < 25 → alphabet r ≡ alphabet s → r ≡ s
alphabet_injective r s hr hs e = ground arith

start-IsPart :
    (calls : ℕ) (heap : Table)
    → IsPart (λ _. 0) 0 (record { tmp = alphabet; table = heap; calls = calls })
start-IsPart calls heap = record {
  distinct = λ i j lo hi. absurd (omega arith);
  below = λ i hi. absurd (omega arith);
  in_table = λ i hi. absurd (omega arith);
  left = λ r lt free. refl;
  taken = λ i hi. absurd (omega arith);
}

-- Where `generateTable` returns, the table holds each letter of the alphabet in one cell, and nothing
-- else: no two cells agree, every letter has a cell, and every cell has a letter.
pub generate_table_lem :
    (rand : ℕ → ℕ) (fuel calls : ℕ) (heap : Table) (g : Generator)
    → generate_table rand fuel calls heap ≡ some g
    → AreDistinct g.table cells
      × ((r : ℕ) → r < 25 → (k : ℕ) × (k < cells) × (g.table k ≡ alphabet r))
      × ((k : ℕ) → k < cells → (r : ℕ) × (r < 25) × (g.table k ≡ alphabet r))
unfolding generate_table
generate_table_lem rand fuel calls heap g e =
    let (idx, part) =
      fill_cells-IsPart rand fuel 0 25 25 (λ _. 0) _ g e (omega arith) (start-IsPart calls heap) in
    (
      λ i j lo hi same. part.distinct i j lo hi (
          alphabet_injective (idx i) (idx j) (part.below i (omega arith)) (part.below j hi)
            (sym (part.in_table i (omega arith)) ∙ same ∙ part.in_table j hi)),
      λ r lt.
          let (k, hk, at) = onto idx 25 part.distinct part.below r lt in
          (k, hk, part.in_table k hk ∙ ap alphabet at),
      λ k lt. (idx k, part.below k lt, part.in_table k lt),
    )

-- From any call on, `rand` takes each remainder within `w` calls.
abbrev pub IsFair : (ℕ → ℕ) → (w : ℕ) → Type 0
IsFair rand w = (n r : ℕ) → r < 25 → (d : ℕ) × (d < w) × (rand (n + d) % 25 ≡ r)

draw-found :
    (rand : ℕ → ℕ) (fuel k : ℕ) (g : Generator)
    → (g.tmp (rand g.calls % 25 + 0) == 0) ≡ false
    → (g' : Generator) × (draw rand (suc fuel) k g ≡ some g')
unfolding draw random_int
draw-found rand fuel k g e =
    let r = rand g.calls % 25 + 0 in
    let g' : Generator = record {
      tmp = update g.tmp r 0;
      table = update g.table k (g.tmp r);
      calls = g.calls + 1;
    } in
    (g', rw (e, draw) refl)

draw-ends :
    (rand : ℕ → ℕ) (fuel d k r : ℕ) (g : Generator)
    → rand (g.calls + d) % 25 ≡ r
    → d < fuel
    → g.tmp r ≢ 0
    → (g' : Generator) × (draw rand fuel k g ≡ some g')
unfolding draw random_int
draw-ends rand zero d k r g hit lt there = absurd (omega arith)
draw-ends rand (suc fuel) zero k r g hit lt there =
    let now : g.calls + 0 ≡ g.calls = omega arith in
    let here : rand g.calls % 25 + 0 ≡ r = omega (arith, hit, ap rand now) in
    draw-found rand fuel k g (rw (here, ne→== (g.tmp r) 0 there) refl)
draw-ends rand (suc fuel) (suc d) k r g hit lt there =
    let step : g.calls + 1 + d ≡ g.calls + suc d = omega arith in
    elim (Bool-cases (g.tmp (rand g.calls % 25 + 0) == 0)) [
      | inl gone ↦
          let (g', e) =
            draw-ends rand fuel d k r (record g { calls = g.calls + 1 }) (rw step hit) (omega arith)
              there in
          (g', rw (gone, draw) e)
      | inr found ↦ draw-found rand fuel k g found
    ]

fill_cells-ends :
    (rand : ℕ → ℕ) (w k n : ℕ) (idx : ℕ → ℕ) (g : Generator)
    → IsFair rand w
    → k + n ≤ 25
    → IsPart idx k g
    → (g' : Generator) × (fill_cells rand w k n g ≡ some g')
unfolding fill_cells
fill_cells-ends rand w k zero idx g fair room part = (g, refl)
fill_cells-ends rand w k (suc n) idx g fair room part =
    let (r, lt, new) = missing idx k 25 (omega arith) in
    let (d, hd, hit) = fair g.calls r lt in
    let there : g.tmp r ≢ 0 = λ z. ground (arith, part.left r lt new) in
    let (h, drawn) = draw-ends rand w d k r g hit hd there in
    let (r', lt', there', tmp, table) = draw-some rand w k g h drawn in
    let (g', e) =
      fill_cells-ends rand w (k + 1) n (update idx k r') h fair (omega arith)
        (IsPart-suc idx k r' g h part lt' there' tmp table) in
    (g', rw (drawn, fill_cells) e)

-- Where `rand` takes every remainder within `w` calls, `generateTable` returns after at most `w` draws
-- for each cell, although its inner loop has no bound.
pub generate_table-ends :
    (rand : ℕ → ℕ) (w calls : ℕ) (heap : Table)
    → IsFair rand w
    → (g : Generator) × (generate_table rand w calls heap ≡ some g)
unfolding generate_table
generate_table-ends rand w calls heap fair =
    fill_cells-ends rand w 0 25 (λ _. 0) _ fair (omega arith) (start-IsPart calls heap)
