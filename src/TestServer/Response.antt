-- ===== src/TestServer/Response.antt =====
-- The array `response` behind one request for RM: its text stands behind what the array held.
use computersystems_monorepo.Prelude.{
  ℕ, ◌+◌, ◌≤◌, ◌<◌, ◌≡◌, ◌∙◌, sym, ap, subst, refl, arith, Bool, true, false, ltb, ltb→lt, ◌==◌,
  Option, none, some, [], ◌∷◌, ◌++◌, length, length-append, drop, inl, inr, Bool-cases,
  Option-cases, if◌then◌else◌,
}
use mathlib.Core.List.{append_assoc}
use computersystems_monorepo.Posix.{
  Bytes, Action, Os, Trace, send, stat, unlink, rmdir, is_negative,
}
use computersystems_monorepo.CText.{codes, c_string, overwrite, strtok}
use computersystems_monorepo.CText.Tokens.{
  HasNo, HasNo-append, c_string-append, strtok-word, word_scan,
}
use computersystems_monorepo.Server.{buffer_size}
use computersystems_monorepo.Server.Dispatch.{request_of, left_of, remove_path}
use computersystems_monorepo.TestServer.{
  Turn, again, exits, crashes, out_of_bounds, respond, rm_command, with_path, run_command,
  run_message,
}

-- The string in `response`, if there is one, has at least `k` characters.
abbrev pub IsLong : (k : ℕ) → Bytes → Type 0
IsLong k response = (s : Bytes) → c_string response ≡ some s → k ≤ length s

-- Where the loop goes on, `response` holds a string of at least `k` characters, which fits.
abbrev pub LeavesLong : (k : ℕ) → Turn × Trace → Type 0
LeavesLong k (again message response, h) = IsLong k response × (k < buffer_size)
LeavesLong k (exits code, h) = Unit
LeavesLong k (crashes, h) = Unit
LeavesLong k (out_of_bounds, h) = Unit

some-eq : {s t : Bytes} → some s ≡ some t → s ≡ t
some-eq {s} e = ap (λ o. elim o as (λ x. Bytes) [ none ↦ s | some u ↦ u ]) e

c_string-HasNo : (buffer s : Bytes) → c_string buffer ≡ some s → HasNo 0 s
c_string-HasNo [] s e = absurd (ground (arith, e))
c_string-HasNo (c ∷ buffer) s e = elim (Bool-cases (c == 0)) [
  | inl nul ↦
      let empty : c_string (c ∷ buffer) ≡ some [] = rw nul refl in
      subst (HasNo 0) (some-eq (sym empty ∙ e)) tt
  | inr other ↦ elim (Option-cases (c_string buffer)) [
    | inl endless ↦ absurd (ground (arith, e, other, endless))
    | inr (t, f) ↦
        let longer : c_string (c ∷ buffer) ≡ some (c ∷ t) = rw (other, f) refl in
        subst (HasNo 0) (some-eq (sym longer ∙ e))
          (λ z. absurd (ground (arith, other, z)), c_string-HasNo buffer t f)
  ]
]

overwritten :
    (text response s : Bytes)
    → HasNo 0 text
    → c_string (overwrite (text ++ 0 ∷ []) response) ≡ some s
    → length s ≡ length text
overwritten text response s no_nul e =
    let whole : c_string (overwrite (text ++ 0 ∷ []) response) ≡ some text =
      ap c_string (append_assoc text (0 ∷ []) _) ∙ c_string-append text _ no_nul in
    ap length (some-eq (sym e ∙ whole))

abbrev IsReport : Bytes → Type 0
IsReport text = (18 ≤ length text) × HasNo 0 text

text-IsReport : (b : Bool) (s t : Bytes) → IsReport s → IsReport t → IsReport (if b then s else t)
text-IsReport true s t hs ht = hs
text-IsReport false s t hs ht = ht

module _ (os : Os) (sock : ℕ) where
  if-IsReport :
      (b : Bool) (m n : Action Bytes) (h : Trace)
      → IsReport (m os h).0
      → IsReport (n os h).0
      → IsReport ((if b then m else n) os h).0
  if-IsReport true m n h hm hn = hm
  if-IsReport false m n h hm hn = hn

  respond-LeavesLong :
      (k : ℕ) (text left response : Bytes) (h : Trace)
      → k ≤ length text
      → HasNo 0 text
      → LeavesLong k (respond sock text left response os h)
  unfolding respond
  respond-LeavesLong k text left response h long no_nul =
      elim (Bool-cases (ltb (length text) buffer_size)) [
        | inr large ↦ rw (large, respond) tt
        | inl fits ↦ elim (Bool-cases (is_negative (os h (send sock text)).code)) [
          | inl failed ↦ rw (fits, failed, respond) tt
          | inr sent ↦
              rw (fits, sent, respond)
                (
                  λ s e. omega (arith, long, overwritten text response s no_nul e),
                  omega (arith, long, ltb→lt (length text) buffer_size fits),
                )
        ]
      ]

  -- Each text that RM reports has 18 characters or more.
  remove_path-IsReport : (path : Bytes) (h : Trace) → IsReport (remove_path path os h).0
  unfolding remove_path
  remove_path-IsReport path h =
      let a = os h (stat path) in
      let h₁ = (stat path, a) ∷ h in
      if-IsReport (is_negative a.code) _ _ h₁ (omega arith, omega arith)
        (if-IsReport a.info.is_regular _ _ h₁
          (text-IsReport ((os h₁ (unlink path)).code == 0) _ _ (omega arith, omega arith)
            (omega arith, omega arith))
          (if-IsReport a.info.is_directory _ _ h₁
            (text-IsReport ((os h₁ (rmdir path)).code == 0) _ _ (omega arith, omega arith)
              (omega arith, omega arith))
            (omega arith, omega arith)))

  rm_command-LeavesLong :
      (k : ℕ) (path left response : Bytes) (h : Trace)
      → IsLong k response
      → LeavesLong (18 + k) (rm_command sock path left response os h)
  unfolding rm_command
  rm_command-LeavesLong k path left response h long =
      let text = (remove_path path os h).0 in
      let (size, no_nul) = remove_path-IsReport path h in
      elim (Option-cases (c_string response)) [
        | inl endless ↦ rw (endless, rm_command) tt
        | inr (old, e) ↦
            rw (e, rm_command)
              (respond-LeavesLong (18 + k) (old ++ text) left response (remove_path path os h).1
                (omega (arith, size, long old e, length-append old text))
                (HasNo-append 0 old text (c_string-HasNo response old e) no_nul))
      ]

  path-LeavesLong :
      (k : ℕ) (token : Option Bytes) (left response : Bytes) (h : Trace)
      → IsLong k response
      → LeavesLong (18 + k) (with_path token (λ path. rm_command sock path left response) os h)
  path-LeavesLong k none left response h long = tt
  path-LeavesLong k (some path) left response h long =
      rm_command-LeavesLong k path left response h long

  -- A message that begins with "RM ".
  pub message-LeavesLong :
      (k : ℕ) (stack message response : Bytes) (h : Trace)
      → IsLong k response
      → LeavesLong (18 + k) (run_message stack sock (codes "RM " ++ message) response os h)
  unfolding run_message run_command
  message-LeavesLong k stack message response h long = elim (Option-cases (c_string message)) [
    | inl endless ↦ rw (endless, run_message) tt
    | inr (s, e) ↦
        let first : strtok (codes "RM " ++ s) ≡ word_scan (codes "RM") s =
          strtok-word b'R' (codes "M") (omega arith) s in
        let r = request_of (codes "RM " ++ s) in
        rw (e, run_message, first, run_command)
          (path-LeavesLong k r.remote.token
            (left_of r (drop (length (codes "RM " ++ s)) (codes "RM " ++ message))) response h long)
  ]
