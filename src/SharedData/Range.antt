-- ===== src/SharedData/Range.antt =====
-- The values that the counter can have in the end.
use computersystems_monorepo.Prelude.{
  ℕ, zero, suc, ◌+◌, ◌≤◌, ◌<◌, ◌≡◌, ◌∙◌, sym, ap, subst, refl, arith, ◌==◌, Bool-cases, inl, inr,
  update,
}
use computersystems_monorepo.SharedData.{
  Place, before, loaded, stored, State, load, store, loads, stores, Run, none_yet, ◌▸◌, IsJoined,
}

abbrev is_stored : Place → ℕ
is_stored before = 0
is_stored (loaded value) = 0
is_stored stored = 1

abbrev value_of : Place → ℕ
value_of before = 0
value_of (loaded value) = value
value_of stored = 0

-- How many threads are behind their store.
abbrev finished : (ℕ → Place) → ℕ
finished place =
    is_stored (place 0) + is_stored (place 1) + is_stored (place 2) + is_stored (place 3)

finished-update :
    (place : ℕ → Place) (t : ℕ) (p : Place)
    → t < 4
    → finished (update place t p) + is_stored (place t) ≡ finished place + is_stored p
finished-update place zero p lt = omega arith
finished-update place (suc zero) p lt = omega arith
finished-update place (suc (suc zero)) p lt = omega arith
finished-update place (suc (suc (suc zero))) p lt = omega arith
finished-update place (suc (suc (suc (suc t)))) p lt = absurd (omega arith)

-- What a thread has loaded, and the counter, are at most the number of stores so far.
record IsCounted (s : State) : Type 0 where
  at_most : s.shared_data ≤ finished s.place
  loads_most : (t : ℕ) → value_of (s.place t) ≤ finished s.place
  at_least : 1 ≤ finished s.place → 1 ≤ s.shared_data

-- A bound on all values, where one thread has moved.
value-update :
    (place : ℕ → Place) (t n : ℕ) (p : Place)
    → value_of p ≤ n
    → ((u : ℕ) → value_of (place u) ≤ n)
    → (u : ℕ) → value_of (update place t p u) ≤ n
value-update place t n p new old u = elim (Bool-cases (t == u)) [
  | inl same ↦ rw same new
  | inr other ↦ rw other (old u)
]

module _ (s : State) (h : IsCounted s) (t : ℕ) (lt : t < 4) where
  change :
      (p q : Place)
      → s.place t ≡ p
      → finished (update s.place t q) + is_stored p ≡ finished s.place + is_stored q
  change p q at =
      ap (λ p. finished (update s.place t q) + is_stored p) (sym at)
      ∙ finished-update s.place t q lt

  loads-IsCounted : s.place t ≡ before → IsCounted (load t s)
  loads-IsCounted at =
      let same = change before (loaded s.shared_data) at in
      record {
        at_most = omega (arith, same, h.at_most);
        loads_most =
            value-update s.place t _ _ (omega (arith, same, h.at_most))
              (λ u. omega (arith, same, h.loads_most u));
        at_least = λ some_stored. h.at_least (omega (arith, same, some_stored));
      }

  of_loaded : (value : ℕ) → s.place t ≡ loaded value → value ≤ finished s.place
  of_loaded value at = subst (λ p. value_of p ≤ finished s.place) at (h.loads_most t)

  stores-IsCounted : (value : ℕ) → s.place t ≡ loaded value → IsCounted (store t value s)
  stores-IsCounted value at =
      let more = change (loaded value) stored at in
      record {
        at_most = omega (arith, more, of_loaded value at);
        loads_most =
            value-update s.place t _ _ (omega arith) (λ u. omega (arith, more, h.loads_most u));
        at_least = λ some_stored. omega arith;
      }

Run-IsCounted : (s : State) → Run s → IsCounted s
Run-IsCounted s none_yet = record {
  at_most = omega arith;
  loads_most = λ t. omega arith;
  at_least = λ some_stored. absurd (omega (arith, some_stored));
}
Run-IsCounted s (run ▸ loads t lt at) = loads-IsCounted _ (Run-IsCounted _ run) t lt at
Run-IsCounted s (run ▸ stores t value lt at) =
    stores-IsCounted _ (Run-IsCounted _ run) t lt value at

finished-joined : (s : State) → IsJoined s → finished s.place ≡ 4
finished-joined s joined =
    rw
      (
        joined 0 (omega arith),
        joined 1 (omega arith),
        joined 2 (omega arith),
        joined 3 (omega arith),
      )
      refl

pub in_range : (s : State) → Run s → IsJoined s → (1 ≤ s.shared_data) × (s.shared_data ≤ 4)
in_range s run joined =
    let h = Run-IsCounted s run in
    let all = finished-joined s joined in
    (h.at_least (omega (arith, all)), omega (arith, all, h.at_most))
