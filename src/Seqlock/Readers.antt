-- ===== src/Seqlock/Readers.antt =====
-- What holds of the readers and writers of 03_readers_writers/mutex-seqlock.c together, and the steps
-- of the writers.
use networking_howto.Mutex.{Mutex, LockResult, acquired, blocked, refused, MutexLaws}
use networking_howto.Prelude.{
  update, suc, ℕ, ◌+◌, ◌*◌, ◌/◌, ◌%◌, ◌^◌, ◌≤◌, ◌<◌, ◌≡◌, Option, none, some, List, [], ◌∷◌, ltb,
  ltb→lt, Bool-cases, inl, inr, arith, refl, sym, ap, ◌∙◌, subst, u32, u64,
}
use networking_howto.Seqlock.{
  WriterPc, outside, locked, entered, loaded_low, storing_high, storing_low, stored, unlocking,
  ReaderPc, first_load, has_seq0, has_low, has_high, returned, join, Turn, writes, reads, Stand,
  after_lock, after_unlock, thread_writer, last_copy,
}
use networking_howto.Seqlock.Invariant.{value_after, Writing}
use networking_howto.Seqlock.Writers.{
  owner_at, Stage-at, tick_fits, step-Writing, end-Writing, lock-Writing,
}

-- A schedule of the writers below `n` and of any readers.
abbrev pub WritersBelow : ℕ → List Turn → Type 0
WritersBelow n [] = Unit
WritersBelow n (writes t ∷ ts) = (t < n) × WritersBelow n ts
WritersBelow n (reads r ∷ ts) = WritersBelow n ts

module _ (inc : ℕ) where
  -- What a reader has loaded, if the counter is still what it was at first.
  abbrev pub Reading : (seq : ℕ) → ReaderPc → Type 0
  Reading seq first_load = Unit
  Reading seq (has_seq0 seq0) = seq0 ≤ seq
  Reading seq (has_low seq0 low) =
      (seq0 ≤ seq) × (seq0 ≡ seq → seq0 % 2 ≡ 0 → low ≡ value_after inc (seq0 / 2) % 2 ^ 32)
  Reading seq (has_high seq0 low high) =
      (seq0 ≤ seq)
      × (seq0 ≡ seq → seq0 % 2 ≡ 0 → low ≡ value_after inc (seq0 / 2) % 2 ^ 32)
      × (seq0 ≡ seq → seq0 % 2 ≡ 0 → high ≡ value_after inc (seq0 / 2) / 2 ^ 32)
  Reading seq returned = Unit

  -- A value that the variable had after some of the increments that were made.
  abbrev pub Copied : (seq copy : ℕ) → Type 0
  Copied seq copy = (k : ℕ) × (2 * k ≤ seq) × (copy ≡ value_after inc k)

  Reading-later : (seq seq' : ℕ) (p : ReaderPc) → seq ≤ seq' → Reading seq p → Reading seq' p
  Reading-later seq seq' first_load le ok = tt
  Reading-later seq seq' (has_seq0 s0) le ok = omega arith
  Reading-later seq seq' (has_low s0 l) le ok =
      let (small, low) = ok in (omega arith, λ e. low (omega (arith, le, small, e)))
  Reading-later seq seq' (has_high s0 l h) le ok =
      let (small, low, high) = ok in
      (omega arith, λ e. low (omega (arith, le, small, e)), λ e. high (omega (arith, le, small, e)))
  Reading-later seq seq' returned le ok = tt

  module _ (mutex : Mutex) (laws : MutexLaws mutex) (n iters : ℕ)
      (few : n * (2 * iters) < 2 ^ 32) where
    pub record Inv (s : Stand mutex) : Type 0 where
      pub writing : Writing inc n iters (laws.owner s.wrmutex) s.seqlock s.low s.high s.writer s.i
      pub reading : (r : ℕ) → Reading s.seqlock (s.reader r)
      pub copied : (r : ℕ) → Copied s.seqlock (s.copy r)
      -- A reader returns with the last value.
      pub last : (r : ℕ) → s.reader r ≡ returned → s.copy r ≡ last_copy mutex n iters inc

    -- A step of a writer does not take the counter back.
    pub later-Inv :
        (s s' : Stand mutex)
        → Inv s
        → s.seqlock ≤ s'.seqlock
        → s'.reader ≡ s.reader
        → s'.copy ≡ s.copy
        → Writing inc n iters (laws.owner s'.wrmutex) s'.seqlock s'.low s'.high s'.writer s'.i
        → Inv s'
    later-Inv s s' good le same_pc same_copy writing = record {
      writing = writing;
      reading = λ r.
          subst (λ f. Reading s'.seqlock (f r)) (sym same_pc)
            (Reading-later s.seqlock s'.seqlock (s.reader r) le (good.reading r));
      copied = λ r.
          subst (λ f. Copied s'.seqlock (f r)) (sym same_copy)
            (let (k, small, e) = good.copied r in (k, omega (arith, small, le), e));
      last = λ r e. ap (λ f. f r) same_copy ∙ good.last r (sym (ap (λ f. f r) same_pc) ∙ e);
    }

    lock-Inv :
        (t : ℕ) (s : Stand mutex) (result : LockResult mutex.State)
        → Inv s
        → t < n
        → s.i t < iters
        → s.writer t ≡ outside
        → mutex.lock t s.wrmutex ≡ result
        → Inv (after_lock mutex t s result)
    lock-Inv t s (acquired m) good l more at e =
        let (was_free, taken) = laws.lock_acquired t s.wrmutex m e in
        later-Inv s _ good (omega arith) refl refl (
          subst (λ o. Writing inc n iters o s.seqlock s.low s.high (update s.writer t locked) s.i)
            (sym taken)
            (lock-Writing inc n iters few t l more at (
              subst (λ o. Writing inc n iters o s.seqlock s.low s.high s.writer s.i) was_free
                good.writing)))
    lock-Inv t s blocked good l more at e = good
    lock-Inv t s refused good l more at e = later-Inv s _ good (omega arith) refl refl good.writing

    unlock-Inv :
        (t : ℕ) (s : Stand mutex) (result : Option mutex.State)
        → Inv s
        → s.writer t ≡ unlocking
        → mutex.unlock t s.wrmutex ≡ result
        → Inv (after_unlock mutex t s result)
    unlock-Inv t s (some m) good at e =
        let owner = owner_at inc n iters few good.writing t unlocking at refl in
        let freed = laws.unlock_frees t s.wrmutex m owner e in
        let (l, rest) = Stage-at inc n iters few good.writing t unlocking at refl in
        later-Inv s _ good (omega arith) refl refl (
          subst
            (λ o.
              Writing inc n iters o s.seqlock s.low s.high (update s.writer t outside)
                (update s.i t (u64 (s.i t + 1))))
            (sym freed) (end-Writing inc n iters few good.writing t unlocking at refl rest refl))
    unlock-Inv t s none good at e = later-Inv s _ good (omega arith) refl refl good.writing

    pub writer-Inv :
        (t : ℕ) (s : Stand mutex) (p : WriterPc)
        → Inv s
        → t < n
        → s.writer t ≡ p
        → Inv (thread_writer mutex n iters inc t s p)
    unfolding thread_writer
    writer-Inv t s outside good l at = elim (Bool-cases (ltb (s.i t) iters)) [
      | inl more ↦ rw more (lock-Inv t s (mutex.lock t s.wrmutex) good l (ltb→lt _ _ more) at refl)
      | inr over ↦ rw over good
    ]
    writer-Inv t s locked good l at =
        let fits = tick_fits inc n iters few good.writing t locked at refl (omega arith) in
        let (_, (even, whole)) = Stage-at inc n iters few good.writing t locked at refl in
        later-Inv s _ good (omega (arith, fits)) refl refl (
          step-Writing inc n iters few good.writing t locked at refl entered (u32 (s.seqlock + 1))
            s.low s.high refl (omega (arith, fits)) good.writing.narrow
            (
              omega (arith, fits, even),
              let same : u32 (s.seqlock + 1) / 2 ≡ s.seqlock / 2 = omega (arith, fits, even) in
                  whole ∙ ap (value_after inc) (sym same),
            ))
    writer-Inv t s entered good l at =
        let (_, (odd, whole)) = Stage-at inc n iters few good.writing t entered at refl in
        later-Inv s _ good (omega arith) refl refl (
          step-Writing inc n iters few good.writing t entered at refl (loaded_low s.low) s.seqlock
            s.low s.high refl refl good.writing.narrow (odd, whole, refl))
    writer-Inv t s (loaded_low low) good l at =
        let (_, (odd, whole, is_low)) =
          Stage-at inc n iters few good.writing t (loaded_low low) at refl in
        later-Inv s _ good (omega arith) refl refl (
          step-Writing inc n iters few good.writing t (loaded_low low) at refl
            (storing_high (u64 (join s.high low + inc))) s.seqlock s.low s.high refl refl
            good.writing.narrow
            (
              odd,
              let product : suc (s.seqlock / 2) * inc ≡ s.seqlock / 2 * inc + inc = grind arith in
                  omega (arith, whole, is_low, product),
            ))
    writer-Inv t s (storing_high c) good l at =
        let (_, (odd, is_next)) =
          Stage-at inc n iters few good.writing t (storing_high c) at refl in
        let small : c / 2 ^ 32 < 2 ^ 32 = omega (arith, is_next) in
        let fits : u32 (c / 2 ^ 32) ≡ c / 2 ^ 32 = omega (arith, small) in
        later-Inv s _ good (omega arith) refl refl (
          step-Writing inc n iters few good.writing t (storing_high c) at refl (storing_low c)
            s.seqlock s.low (u32 (c / 2 ^ 32)) refl refl
            (good.writing.narrow.0, omega (arith, small, fits)) (odd, is_next, fits))
    writer-Inv t s (storing_low c) good l at =
        let (_, (odd, is_next, is_high)) =
          Stage-at inc n iters few good.writing t (storing_low c) at refl in
        later-Inv s _ good (omega arith) refl refl (
          step-Writing inc n iters few good.writing t (storing_low c) at refl stored s.seqlock
            (c % 2 ^ 32) s.high refl refl (omega arith, good.writing.narrow.1)
            (odd, omega (arith, is_high, is_next)))
    writer-Inv t s stored good l at =
        let fits = tick_fits inc n iters few good.writing t stored at refl (omega arith) in
        let (_, (odd, whole)) = Stage-at inc n iters few good.writing t stored at refl in
        later-Inv s _ good (omega (arith, fits)) refl refl (
          step-Writing inc n iters few good.writing t stored at refl unlocking (u32 (s.seqlock + 1))
            s.low s.high refl (omega (arith, fits)) good.writing.narrow
            (
              omega (arith, fits, odd),
              let next : u32 (s.seqlock + 1) / 2 ≡ suc (s.seqlock / 2) = omega (arith, fits, odd) in
                  whole ∙ ap (value_after inc) (sym next),
            ))
    writer-Inv t s unlocking good l at = unlock-Inv t s (mutex.unlock t s.wrmutex) good at refl
