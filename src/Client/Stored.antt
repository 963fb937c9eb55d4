-- ===== src/Client/Stored.antt =====
-- What the client leaves in its local file.
use mathlib.Core.List.{append-nil}
use computersystems_monorepo.Prelude.{
  ℕ, zero, suc, ◌+◌, ◌-◌, ◌<◌, ◌≡◌, ◌≤◌, ◌≢◌, ◌⊎◌, ap, sym, refl, arith, true, false, ◌==◌, [], ◌∷◌,
  ◌++◌, length, take, Bool-cases, inl, inr, eq→==, ==→eq, subst,
}
use computersystems_monorepo.Posix.{
  Bytes, Os, Trace, Answer, fopen_write, fwrite, fclose, close, recv, send, minus_one, is_negative,
}
use computersystems_monorepo.Client.{
  buffer_size, End, exits, crashes, Received, all, failed, out_of_fuel, recv_file, end_at_zero,
  request_text, save_file, save_received, exchange,
}
use computersystems_monorepo.Client.Saved.{received, Collects, recv_file-Collects}
use computersystems_monorepo.Server.Copies.{written, WritesAll}

module _ (stream sock : ℕ) (os : Os) where
  recv_file-writes :
      (fuel : ℕ) (got : Bytes) (h : Trace)
      → written stream (recv_file fuel sock got os h).1 ≡ written stream h
  unfolding recv_file
  recv_file-writes zero got h = refl
  recv_file-writes (suc fuel) got h =
      let n = buffer_size - length got in
      let a = os h (recv sock n) in
      ground (arith, recv_file-writes fuel (got ++ take n a.bytes) ((recv sock n, a) ∷ h))

-- What the program did last: it opened the file `path` for writing, as stream `stream`, wrote `bytes`
-- to it, and closed it and its socket.
abbrev pub EndsBySaving : (sock : ℕ) (path : Bytes) (stream : ℕ) (bytes : Bytes) → Trace → Type 0
EndsBySaving sock path stream bytes h' =
    (opens writes closes hangs_up : Answer) × (h : Trace) × (stream ≡ opens.code)
    × (length bytes ≤ writes.code)
    × (h'
        ≡ (close sock, hangs_up)
          ∷ (fclose stream, closes)
          ∷ (fwrite stream bytes, writes)
          ∷ (fopen_write path, opens)
          ∷ h)

-- The last call was the one that failed.
pub data LastFailed (sock : ℕ) (local : Bytes) : Trace → Type 0 where
  not_sent :
      (bytes : Bytes) (a : Answer) (h : Trace)
      → is_negative a.code ≡ true
      → LastFailed sock local ((send sock bytes, a) ∷ h)
  not_received :
      (n : ℕ) (a : Answer) (h : Trace)
      → is_negative a.code ≡ true
      → LastFailed sock local ((recv sock n, a) ∷ h)
  not_opened :
      (a : Answer) (h : Trace) → a.code ≡ 0 → LastFailed sock local ((fopen_write local, a) ∷ h)

-- The client ended with -1 behind a call that failed, or it ended with 0 and the stream that it opened for its local file, and
-- that is not NULL, got what came, but for its first byte, which is NUL.
abbrev pub Stores :
    (sock : ℕ) (local : Bytes) → (written_before came_before : ℕ → Bytes) → End × Trace → Type 0
Stores sock local before since (exits code, h') =
    ((code ≡ minus_one) × LastFailed sock local h')
    ⊎ ((code ≡ 0)
        × (stream : ℕ) × (bytes : Bytes) × (stream ≢ 0)
        × EndsBySaving sock local stream (end_at_zero bytes) h'
        × (received sock h' ≡ since sock ++ bytes)
        × (written stream h' ≡ before stream ++ end_at_zero bytes))
Stores sock local before since (crashes, h') = ⊥

module _ (sock : ℕ) (local : Bytes) (os : Os) (complete : WritesAll os) where
  module _ (h : Trace) (content : Bytes) where
    abbrev opened : Answer
    opened = os h (fopen_write local)

    abbrev after_open : Trace
    after_open = (fopen_write local, opened) ∷ h

    abbrev after_write : Trace
    after_write =
        (fwrite opened.code content, os after_open (fwrite opened.code content)) ∷ after_open

    abbrev after_close : Trace
    after_close = (fclose opened.code, os after_write (fclose opened.code)) ∷ after_write

    save_file-none :
        (opened.code == 0) ≡ true
        → save_file sock local content os h ≡ (exits minus_one, after_open)
    unfolding save_file
    save_file-none null = ground arith

    save_file-some :
        (opened.code == 0) ≡ false
        → save_file sock local content os h
          ≡ (exits 0, (close sock, os after_close (close sock)) ∷ after_close)
    unfolding save_file
    save_file-some stream = ground (arith, complete after_open opened.code content)

  module _ (before since : ℕ → Bytes) where
    save_file-Stores :
        (h : Trace) (bytes : Bytes)
        → ((stream : ℕ) → written stream h ≡ before stream)
        → received sock h ≡ since sock ++ bytes
        → Stores sock local before since (save_file sock local (end_at_zero bytes) os h)
    save_file-Stores h bytes kept came =
        let content = end_at_zero bytes in
        elim (Bool-cases ((opened h content).code == 0)) [
          | inl null ↦
              rw (save_file-none h content null)
                (inl (refl, not_opened (opened h content) h (==→eq _ 0 null)))
          | inr some_stream ↦
              let stream = (opened h content).code in
              rw (save_file-some h content some_stream) (
                inr (
                  refl,
                  stream,
                  bytes,
                  (λ null. ground (arith, some_stream, null)),
                  (
                    opened h content,
                    os (after_open h content) (fwrite stream content),
                    os (after_write h content) (fclose stream),
                    os (after_close h content) (close sock),
                    h,
                    refl,
                    complete (after_open h content) stream content,
                    refl,
                  ),
                  came,
                  rw (eq→== stream stream refl) (ap (λ w. w ++ content) (kept stream)),
                ))
        ]

    save_received-Stores :
        (h : Trace) (r : Received)
        → ((stream : ℕ) → written stream h ≡ before stream)
        → Collects sock (since sock) (r, h)
        → Stores sock local before since (save_received sock local r os h)
    unfolding save_received
    save_received-Stores h (all bytes) kept (fits, came) = save_file-Stores h bytes kept came
    save_received-Stores h failed kept (n, a, before_, same, negative) =
        inl (refl, subst (LastFailed sock local) (sym same) (not_received n a before_ negative))
    save_received-Stores h out_of_fuel kept collects = absurd collects

  abbrev asked : Trace → Trace
  asked h = (send sock (request_text local), os h (send sock (request_text local))) ∷ h

  exchange-not_sent :
      (h : Trace)
      → length (request_text local) < buffer_size
      → is_negative (os h (send sock (request_text local))).code ≡ true
      → exchange sock local os h ≡ (exits minus_one, asked h)
  unfolding exchange
  exchange-not_sent h short negative = ground arith

  exchange-sent :
      (h : Trace)
      → length (request_text local) < buffer_size
      → is_negative (os h (send sock (request_text local))).code ≡ false
      → let r = recv_file (buffer_size + 1) sock [] os (asked h) in
        exchange sock local os h ≡ save_received sock local r.0 os r.1
  unfolding exchange
  exchange-sent h short sent = ground arith

  -- Where every write is complete and the file name fits, the client ends with -1 where a call failed,
  -- of send or recv on its socket or of fopen for its local file, as its last call, or it ends with 0
  -- and the last it did was to open its local file for writing, to write to it what came from the
  -- server with a NUL in place of the first byte, and to close the file and the socket.
  pub exchange-Stores :
      (h : Trace)
      → length (request_text local) < buffer_size
      → Stores sock local
          (λ stream. written stream h)
          (λ s. received s h)
          (exchange sock local os h)
  exchange-Stores h short =
      elim (Bool-cases (is_negative (os h (send sock (request_text local))).code)) [
        | inl negative ↦ rw (exchange-not_sent h short negative) (
            inl (
              refl,
              not_sent (request_text local) (os h (send sock (request_text local))) h negative,
            ))
        | inr sent ↦
            let r = recv_file (buffer_size + 1) sock [] os (asked h) in
            rw (exchange-sent h short sent) (
              save_received-Stores (λ stream. written stream h) (λ s. received s h) r.1 r.0
                (λ stream. recv_file-writes stream sock os (buffer_size + 1) [] (asked h))
                (recv_file-Collects os sock (buffer_size + 1) (received sock h) [] (asked h)
                  (sym (append-nil _)) (omega arith) (omega arith)))
      ]
