-- ===== src/PageReplacement/Fifo.antt =====
-- The page table with its index is a queue of three pages.
use computersystems_monorepo.Prelude.{
  ℕ, ◌+◌, ◌%◌, ◌<◌, ◌≡◌, ◌≢◌, ◌∙◌, refl, ap, arith, Bool, true, false, ◌==◌, ◌||◌, if◌then◌else◌,
  none, some, List, [], ◌∷◌, find_from, find_from-some, find_from-none, Option-cases, inl, inr,
}
use computersystems_monorepo.PageReplacement.{State, replace, reference, run}

-- A queue of three, the oldest page first, and how many pages were new.
pub record Queue : Type 0 where
  pub first : ℕ
  pub second : ℕ
  pub third : ℕ
  pub faults : ℕ

-- A page in the queue changes nothing; a new one drives the first out.
abbrev pub refer : ℕ → Queue → Queue
refer p q =
    if (p == q.first) || (p == q.second) || (p == q.third)
    then q
    else record { first = q.second; second = q.third; third = p; faults = q.faults + 1 }

abbrev pub refer_all : List ℕ → Queue → Queue
refer_all [] q = q
refer_all (p ∷ ps) q = refer_all ps (refer p q)

-- The queue that a state stands for.
abbrev pub queue_of : State → Queue
queue_of s = record {
  first = s.page_table s.oldest_page_index;
  second = s.page_table ((s.oldest_page_index + 1) % 3);
  third = s.page_table ((s.oldest_page_index + 2) % 3);
  faults = s.num_faults;
}

module _ (p : ℕ) (s : State) (bound : s.oldest_page_index < 3) where
  abbrev holds : Bool
  holds = (p == (queue_of s).first) || (p == (queue_of s).second) || (p == (queue_of s).third)

  hit : (j : ℕ) → j < 3 → s.page_table j ≡ p → holds ≡ true
  hit j lt e = ground arith

  miss : ((j : ℕ) → j < 3 → s.page_table j ≢ p) → holds ≡ false
  miss out = ground (
    arith,
    out s.oldest_page_index bound,
    out ((s.oldest_page_index + 1) % 3) (omega arith),
    out ((s.oldest_page_index + 2) % 3) (omega arith),
  )

  queue_of-replace : queue_of (replace p s) ≡ record {
    first = (queue_of s).second;
    second = (queue_of s).third;
    third = p;
    faults = s.num_faults + 1;
  }
  unfolding replace
  queue_of-replace = ground arith

  bound-replace : (replace p s).oldest_page_index < 3
  unfolding replace
  bound-replace = omega arith

  reference-some : (j : ℕ) → find_from s.page_table p 0 3 ≡ some j → reference p s ≡ s
  unfolding reference
  reference-some j e = rw (e, reference) refl

  reference-none : find_from s.page_table p 0 3 ≡ none → reference p s ≡ replace p s
  unfolding reference
  reference-none e = rw (e, reference) refl

-- One reference does to the state what it does to the queue, and keeps the index in the table.
reference-refines :
    (p : ℕ) (s : State)
    → s.oldest_page_index < 3
    → (queue_of (reference p s) ≡ refer p (queue_of s)) × ((reference p s).oldest_page_index < 3)
reference-refines p s bound = elim (Option-cases (find_from s.page_table p 0 3)) [
  | inl out ↦
      let new =
        miss p s bound
          (λ j lt. find_from-none s.page_table p 0 3 j out (omega arith) (omega (arith, lt))) in
      rw (reference-none p s bound out)
        (queue_of-replace p s bound ∙ rw new refl, bound-replace p s bound)
  | inr (j, found) ↦
      let (_, lt, e) = find_from-some s.page_table p 0 3 j found in
      rw (reference-some p s bound j found) (rw (hit p s bound j (omega (arith, lt)) e) refl, bound)
]

-- A run over any reference string leaves the three pages, in their order of age, and the number of
-- faults that a queue of three pages leaves.
pub run-refines :
    (ps : List ℕ) (s : State)
    → s.oldest_page_index < 3
    → queue_of (run ps s) ≡ refer_all ps (queue_of s)
unfolding run
run-refines [] s bound = refl
run-refines (p ∷ ps) s bound =
    let (e, kept) = reference-refines p s bound in
    run-refines ps (reference p s) kept ∙ ap (refer_all ps) e
