-- ===== src/Seqlock/Run.antt =====
-- The readers of 03_readers_writers/mutex-seqlock.c, and whole runs.
use networking_howto.Mutex.{Mutex, MutexLaws}
use networking_howto.Prelude.{
  each, update, update_self, update_ne, ℕ_discrete, ◌≢◌, ℕ, ◌+◌, ◌*◌, ◌/◌, ◌%◌, ◌^◌, ◌<◌, ◌≡◌, Bool,
  true, false, not, ◌||◌, List, [], ◌∷◌, if◌then◌else◌, ◌==◌, ==_iff, Bool-cases, inl, inr, arith,
  refl, sym, ap, ◌∙◌, subst, u32,
}
use networking_howto.Seqlock.{
  go_reader, outside, ReaderPc, first_load, has_seq0, has_low, has_high, returned, join, Turn,
  writes, reads, Stand, last_copy, after_loads, thread_reader, turn, play, stand,
}
use networking_howto.Seqlock.Invariant.{value_after, Writing}
use networking_howto.Seqlock.Writers.{seq-bound, even-AtRest, stand-Writing}
use networking_howto.Seqlock.Readers.{WritersBelow, Reading, Copied, Inv, later-Inv, writer-Inv}

module _ (inc : ℕ) (mutex : Mutex) (laws : MutexLaws mutex) (n iters : ℕ)
    (few : n * (2 * iters) < 2 ^ 32) where
  abbrev Good : Stand mutex → Type 0
  Good s = Inv inc mutex laws n iters few s

  -- A step of reader `r` that leaves the shared variables and its copy alone.
  load-Inv :
      (r : ℕ) (s : Stand mutex) (p : ReaderPc)
      → Good s
      → Reading inc s.seqlock p
      → p ≢ returned
      → Good (go_reader mutex s r p)
  load-Inv r s p good ok more = record {
    writing = good.writing;
    reading = each (λ u q. Reading inc s.seqlock q) s.reader r p ok (λ u ne. good.reading u);
    copied = good.copied;
    last =
        each (λ u q. q ≡ returned → s.copy u ≡ last_copy mutex n iters inc) s.reader r p
          (λ e. absurd (more e)) (λ u ne. good.last u);
  }

  copy-Inv :
      (r : ℕ) (s : Stand mutex) (copy : ℕ) (p : ReaderPc)
      → Good s
      → Copied inc s.seqlock copy
      → Reading inc s.seqlock p
      → (p ≡ returned → copy ≡ last_copy mutex n iters inc)
      → Good (go_reader mutex (record s { copy = update s.copy r copy }) r p)
  copy-Inv r s copy p good ok reading last = record {
    writing = good.writing;
    reading = each (λ u q. Reading inc s.seqlock q) s.reader r p reading (λ u ne. good.reading u);
    copied = each (λ u c. Copied inc s.seqlock c) s.copy r copy ok (λ u ne. good.copied u);
    last = λ u. elim (ℕ_discrete u r) [
      | yes e ↦ λ h.
          subst (λ v. update s.copy r copy v ≡ last_copy mutex n iters inc) (sym e)
            (update_self s.copy r copy
              ∙ last (sym (ap (update s.reader r p) e ∙ update_self s.reader r p) ∙ h))
      | no ne ↦
          λ h. update_ne s.copy r copy u ne ∙ good.last u (sym (update_ne s.reader r p u ne) ∙ h)
    ];
  }

  same_seq : (s : Stand mutex) → Good s → u32 (s.seqlock + 0) ≡ s.seqlock
  same_seq s good = let bound = seq-bound inc n iters few good.writing in omega (arith, bound, few)

  -- If the counter is even, the halves are those of one value.
  halves :
      (s : Stand mutex)
      → Good s
      → s.seqlock % 2 ≡ 0
      → (s.low ≡ value_after inc (s.seqlock / 2) % 2 ^ 32)
        × (s.high ≡ value_after inc (s.seqlock / 2) / 2 ^ 32)
  halves s good even =
      let (_, whole) = even-AtRest inc n iters few good.writing even in
      let (low, high) = good.writing.narrow in
      (omega (arith, whole, low, high), omega (arith, whole, low, high))

  accepted :
      (seq0 seq1 : ℕ)
      → (not (seq0 == seq1) || seq0 % 2 == 1) ≡ false
      → (seq0 ≡ seq1) × (seq0 % 2 ≡ 0)
  accepted seq0 seq1 e = (ground arith, ground arith)

  after_loads-Inv :
      (r : ℕ) (s : Stand mutex) (seq0 low high : ℕ)
      → Good s
      → Reading inc s.seqlock (has_high seq0 low high)
      → Good (after_loads mutex n iters inc r s seq0 low high)
  unfolding after_loads
  after_loads-Inv r s seq0 low high good ok =
      elim (Bool-cases (not (seq0 == s.seqlock) || seq0 % 2 == 1)) [
        | inl changed ↦ rw changed (load-Inv r s first_load good tt (λ e. cc))
        | inr same ↦
            let (eq, even) = accepted seq0 s.seqlock same in
            let (small, low_is, high_is) = ok in
            let l = low_is eq even in
            let h = high_is eq even in
            let whole : join high low ≡ value_after inc (seq0 / 2) = omega (arith, l, h) in
            let copied : Copied inc s.seqlock (join high low) =
              (seq0 / 2, omega (arith, small), whole) in
            rw same (elim (Bool-cases (join high low == last_copy mutex n iters inc)) [
              | inl is_last ↦ rw is_last (
                  copy-Inv r s (join high low) returned good copied tt
                    (λ e. (==_iff _ _).0 is_last))
              | inr older ↦
                  rw older (copy-Inv r s (join high low) first_load good copied tt (λ e. cc))
            ])
      ]

  reader-Inv :
      (r : ℕ) (s : Stand mutex) (p : ReaderPc)
      → Good s
      → Reading inc s.seqlock p
      → Good (thread_reader mutex n iters inc r s p)
  unfolding thread_reader
  reader-Inv r s first_load good ok = load-Inv r s (has_seq0 s.seqlock) good (omega arith) (λ e. cc)
  reader-Inv r s (has_seq0 seq0) good ok =
      load-Inv r s (has_low seq0 s.low) good
        (
          ok,
          λ eq even.
              (halves s good (omega (arith, eq, even))).0
              ∙ ap (λ k. value_after inc (k / 2) % 2 ^ 32) (sym eq),
        )
        (λ e. cc)
  reader-Inv r s (has_low seq0 low) good ok =
      load-Inv r s (has_high seq0 low s.high) good
        (
          ok.0,
          ok.1,
          λ eq even.
              (halves s good (omega (arith, eq, even))).1
              ∙ ap (λ k. value_after inc (k / 2) / 2 ^ 32) (sym eq),
        )
        (λ e. cc)
  reader-Inv r s (has_high seq0 low high) good ok =
      let same = same_seq s good in
      after_loads-Inv r (record s { seqlock = u32 (s.seqlock + 0) }) seq0 low high
        (later-Inv inc mutex laws n iters few s _ good (omega (arith, same)) refl refl (
          subst (λ q. Writing inc n iters (laws.owner s.wrmutex) q s.low s.high s.writer s.i)
            (sym same) good.writing))
        (subst (λ q. Reading inc q (has_high seq0 low high)) (sym same) ok)
  reader-Inv r s returned good ok = good

  play-Inv :
      (ts : List Turn) (s : Stand mutex)
      → WritersBelow n ts
      → Good s
      → Good (play mutex n iters inc ts s)
  unfolding play turn
  play-Inv [] s valid good = good
  play-Inv (t ∷ ts) s valid good =
      play-Inv ts (if s.exited then s else turn mutex n iters inc t s) (rest t valid)
        (either s.exited (next t valid))
    where
      either :
          (b : Bool)
          → Good (turn mutex n iters inc t s)
          → Good (if b then s else turn mutex n iters inc t s)
      either true h = good
      either false h = h

      rest : (t : Turn) → WritersBelow n (t ∷ ts) → WritersBelow n ts
      rest (writes t) v = v.1
      rest (reads r) v = v

      next : (t : Turn) → WritersBelow n (t ∷ ts) → Good (turn mutex n iters inc t s)
      next (writes t) v = writer-Inv inc mutex laws n iters few t s (s.writer t) good v.0 refl
      next (reads r) v = reader-Inv r s (s.reader r) good (good.reading r)

  pub run-Inv :
      (ts : List Turn) → WritersBelow n ts → Good (play mutex n iters inc ts (stand mutex))
  run-Inv ts valid = play-Inv ts (stand mutex) valid (record {
    writing =
        subst (λ o. Writing inc n iters o 0 0 0 (λ t. outside) (λ t. 0)) (sym laws.free_at_first)
          (stand-Writing inc n iters few);
    reading = λ r. tt;
    copied =
        λ r. (0, omega arith, let product : 0 * inc ≡ 0 = grind arith in omega (arith, product));
    last = λ r e. absurd (cc);
  })
