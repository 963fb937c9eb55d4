-- ===== src/Counting/Steps.antt =====
-- What every step of a thread keeps.
use mathlib.Core.List.{append-nil, append_assoc}
use mathlib.Core.Bool.{false≢true}
use mathlib.Core.Option.{some-injective, none-ne-some}
use computersystems_monorepo.Prelude.{
  ℕ, zero, suc, ◌+◌, ◌-◌, ◌≤◌, ◌<◌, ◌≡◌, ◌∙◌, sym, ap, refl, arith, ◌==◌, Bool, true, false,
  Bool-cases, inl, inr, Option, none, some, update, ==→eq, eq→==, ◌≢◌, List, [], ◌∷◌, ◌++◌,
}
use computersystems_monorepo.Posix.{Bytes}
use computersystems_monorepo.Counting.{
  count_to, Phase, waiting, testing, raised, told, ended, State, lock, raise, tell, report, unlock,
  inside_sum, count_line, Step, locks, raises, tells, reports, unlocks,
}

-- The texts of `n` rounds of the loop behind `i`.
unfoldable pub counts : (i n : ℕ) → List Bytes
counts i zero = []
counts i (suc n) = counts i n ++ inside_sum ∷ count_line (i + n + 1) ∷ []

counts-suc : (i n : ℕ) → counts i n ++ inside_sum ∷ count_line (i + n + 1) ∷ [] ≡ counts i (suc n)
unfolding counts
counts-suc i n = refl

abbrev pub is_inside : Phase → Bool
is_inside waiting = false
is_inside testing = true
is_inside raised = true
is_inside told = true
is_inside ended = false

-- What a thread still has to write of its round.
abbrev pub owed : Phase → ℕ → List Bytes
owed waiting i = []
owed testing i = []
owed raised i = inside_sum ∷ count_line i ∷ []
owed told i = count_line i ∷ []
owed ended i = []

abbrev pub owed_by : Option ℕ → State → List Bytes
owed_by none s = []
owed_by (some t) s = owed (s.phase t) s.i

module _ (f : ℕ → Phase) (t u : ℕ) (p : Phase) where
  update-same : (t == u) ≡ true → update f t p u ≡ p
  update-same same = rw same refl

  update-other : (t == u) ≡ false → update f t p u ≡ f u
  update-other other = rw other refl

update-here : (f : ℕ → Phase) (t : ℕ) (p : Phase) → update f t p t ≡ p
update-here f t p = update-same f t t p (eq→== t t refl)

pub not_ended : (p : Phase) → is_inside p ≡ true → p ≢ ended
not_ended p inside e = false≢true (sym (ap is_inside e) ∙ inside)

module _ (i₀ : ℕ) (out₀ : List Bytes) where
  pub record IsCounting (s : State) : Type 0 where
    pub holds : (t : ℕ) → is_inside (s.phase t) ≡ true → s.mutex ≡ some t
    pub held : (t : ℕ) → s.mutex ≡ some t → (t < 2) × (is_inside (s.phase t) ≡ true)
    pub low : i₀ ≤ s.i
    pub high : s.i ≤ i₀ + (count_to - i₀)
    pub full : (t : ℕ) → s.phase t ≡ ended → count_to ≤ s.i
    pub writes : s.out ++ owed_by s.mutex s ≡ out₀ ++ counts i₀ (s.i - i₀)

  module _ (s : State) (h : IsCounting s) (t : ℕ) where
    owed-holder :
        is_inside (s.phase t) ≡ true → s.out ++ owed (s.phase t) s.i ≡ out₀ ++ counts i₀ (s.i - i₀)
    owed-holder inside = ap (λ m. s.out ++ owed_by m s) (sym (h.holds t inside)) ∙ h.writes

    -- The holder of the mutex moves on to another place between lock and unlock.
    stays :
        (p : Phase) (j : ℕ) (out : List Bytes)
        → is_inside (s.phase t) ≡ true
        → is_inside p ≡ true
        → s.i ≤ j
        → j ≤ i₀ + (count_to - i₀)
        → out ++ owed p j ≡ out₀ ++ counts i₀ (j - i₀)
        → IsCounting (record { i = j; mutex = s.mutex; phase = update s.phase t p; out = out })
    stays p j out inside still grows high writes = record {
      holds = λ u in_u. elim (Bool-cases (t == u)) [
        | inl same ↦ h.holds t inside ∙ ap some (==→eq t u same)
        | inr other ↦ h.holds u (ap is_inside (sym (update-other s.phase t u p other)) ∙ in_u)
      ];
      held = λ u by_u.
          let here : u ≡ t = some-injective u t (sym by_u ∙ h.holds t inside) in
          ((h.held u by_u).0, rw (here, update-here s.phase t p) still);
      low = omega (arith, h.low);
      high = high;
      full = λ u done. elim (Bool-cases (t == u)) [
        | inl same ↦ absurd (not_ended p still (sym (update-same s.phase t u p same) ∙ done))
        | inr other ↦ omega (arith, h.full u (sym (update-other s.phase t u p other) ∙ done))
      ];
      writes =
          ap
            (λ m.
              out
              ++ owed_by m
                  (record { i = j; mutex = s.mutex; phase = update s.phase t p; out = out }))
            (h.holds t inside)
          ∙ ap (λ q. out ++ owed q j) (update-here s.phase t p)
          ∙ writes;
    }

    is_at : (q : Phase) → s.phase t ≡ q → is_inside q ≡ true → is_inside (s.phase t) ≡ true
    is_at q at inside = ap is_inside at ∙ inside

    written_at :
        (q : Phase)
        → s.phase t ≡ q
        → is_inside q ≡ true
        → s.out ++ owed q s.i ≡ out₀ ++ counts i₀ (s.i - i₀)
    written_at q at inside =
        ap (λ q. s.out ++ owed q s.i) (sym at) ∙ owed-holder (is_at q at inside)

    locks-IsCounting : t < 2 → s.phase t ≡ waiting → s.mutex ≡ none → IsCounting (lock t s)
    locks-IsCounting lt at free = record {
      holds = λ u in_u. elim (Bool-cases (t == u)) [
        | inl same ↦ ap some (==→eq t u same)
        | inr other ↦ absurd (
            none-ne-some u (
              sym free
              ∙ h.holds u (ap is_inside (sym (update-other s.phase t u testing other)) ∙ in_u)))
      ];
      held = λ u by_u.
          let here : t ≡ u = some-injective t u by_u in
          (rw (sym here) lt, rw (sym here, update-here s.phase t testing) refl);
      low = h.low;
      high = h.high;
      full = λ u done. elim (Bool-cases (t == u)) [
        | inl same ↦
            absurd (not_ended testing refl (sym (update-same s.phase t u testing same) ∙ done))
        | inr other ↦ h.full u (sym (update-other s.phase t u testing other) ∙ done)
      ];
      writes =
          ap (λ q. s.out ++ owed q s.i) (update-here s.phase t testing)
          ∙ ap (λ m. s.out ++ owed_by m s) (sym free)
          ∙ h.writes;
    }

    unlocks-IsCounting : s.phase t ≡ testing → count_to ≤ s.i → IsCounting (unlock t s)
    unlocks-IsCounting at enough = record {
      holds = λ u in_u. elim (Bool-cases (t == u)) [
        | inl same ↦
            absurd (false≢true (sym (ap is_inside (update-same s.phase t u ended same)) ∙ in_u))
        | inr other ↦
            let in_before : is_inside (s.phase u) ≡ true =
              ap is_inside (sym (update-other s.phase t u ended other)) ∙ in_u in
            absurd (
              ground (
                arith,
                some-injective t u (sym (h.holds t (is_at testing at refl)) ∙ h.holds u in_before),
              ))
      ];
      held = λ u by_u. absurd (none-ne-some u by_u);
      low = h.low;
      high = h.high;
      full = λ u done. elim (Bool-cases (t == u)) [
        | inl same ↦ enough
        | inr other ↦ h.full u (sym (update-other s.phase t u ended other) ∙ done)
      ];
      writes = written_at testing at refl;
    }

    raises-IsCounting : s.phase t ≡ testing → s.i < count_to → IsCounting (raise t s)
    raises-IsCounting at more =
        let n = s.i - i₀ in
        let next : s.i + 1 - i₀ ≡ suc n = omega (arith, h.low) in
        let last : i₀ + n + 1 ≡ s.i + 1 = omega (arith, h.low) in
        stays raised (s.i + 1) s.out (is_at testing at refl) refl (omega arith)
          (omega (arith, h.low, h.high))
          (ap (λ o. o ++ inside_sum ∷ count_line (s.i + 1) ∷ [])
              (sym (append-nil s.out) ∙ written_at testing at refl)
            ∙ append_assoc out₀ (counts i₀ n) (inside_sum ∷ count_line (s.i + 1) ∷ [])
            ∙ ap (λ k. out₀ ++ (counts i₀ n ++ inside_sum ∷ count_line k ∷ [])) (sym last)
            ∙ ap (λ c. out₀ ++ c) (counts-suc i₀ n)
            ∙ ap (λ k. out₀ ++ counts i₀ k) (sym next))

    tells-IsCounting : s.phase t ≡ raised → IsCounting (tell t s)
    tells-IsCounting at =
        stays told s.i (s.out ++ inside_sum ∷ []) (is_at raised at refl) refl (omega arith) h.high
          (append_assoc s.out (inside_sum ∷ []) (count_line s.i ∷ []) ∙ written_at raised at refl)

    reports-IsCounting : s.phase t ≡ told → IsCounting (report t s)
    reports-IsCounting at =
        stays testing s.i (s.out ++ count_line s.i ∷ []) (is_at told at refl) refl (omega arith)
          h.high (append-nil _ ∙ written_at told at refl)

  pub Step-IsCounting : (s s' : State) → Step s s' → IsCounting s → IsCounting s'
  Step-IsCounting s s' (locks t lt at free) h = locks-IsCounting s h t lt at free
  Step-IsCounting s s' (raises t lt at more) h = raises-IsCounting s h t at more
  Step-IsCounting s s' (tells t lt at) h = tells-IsCounting s h t at
  Step-IsCounting s s' (reports t lt at) h = reports-IsCounting s h t at
  Step-IsCounting s s' (unlocks t lt at enough) h = unlocks-IsCounting s h t at enough
