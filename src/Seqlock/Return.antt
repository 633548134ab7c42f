-- ===== src/Seqlock/Return.antt =====
-- The readers of 03_readers_writers/mutex-seqlock.c return after the writers.
use networking_howto.Mutex.{Mutex, MutexLaws}
use networking_howto.Prelude.{
  update, update_self, ℕ, zero, suc, ◌+◌, ◌*◌, ◌%◌, ◌^◌, ◌≤◌, ◌<◌, ◌≡◌, Bool, true, false, not,
  ◌||◌, List, [], ◌∷◌, ◌++◌, ◌⊎◌, inl, inr, if◌then◌else◌, ◌==◌, ==_iff, Bool-cases, arith, refl,
  sym, ap, ◌∙◌, subst, u32,
}
use networking_howto.Seqlock.{
  ReaderPc, first_load, has_seq0, has_low, has_high, returned, join, Turn, reads, Stand, last_copy,
  after_loads, thread_reader, turn, play, stand,
}
use networking_howto.Seqlock.Writers.{seq-bound}
use networking_howto.Seqlock.Readers.{WritersBelow}
use networking_howto.Seqlock.Run.{run-Inv}
use networking_howto.Seqlock.Safety.{WritersDone, written_result, final_seqlock}

-- `k` turns of reader `r`.
abbrev pub turns_of : (r k : ℕ) → List Turn
turns_of r zero = []
turns_of r (suc k) = reads r ∷ turns_of r k

module _ (mutex : Mutex) (n iters inc : ℕ) (seq low high : ℕ) where
  -- The shared variables are those numbers, and their value is the last one.
  record Still (s : Stand mutex) : Type 0 where
    is_seq : s.seqlock ≡ seq
    is_low : s.low ≡ low
    is_high : s.high ≡ high
    fits : seq < 2 ^ 32
    even : seq % 2 ≡ 0
    is_last : join high low ≡ last_copy mutex n iters inc
    running : s.exited ≡ false

  -- The reader returns within `k` turns, if nobody writes.
  abbrev Within : ℕ → ReaderPc → Type 0
  Within k first_load = 4 ≤ k
  Within k (has_seq0 s0) = (7 ≤ k) ⊎ ((3 ≤ k) × (s0 ≡ seq))
  Within k (has_low s0 l) = (6 ≤ k) ⊎ ((2 ≤ k) × (s0 ≡ seq) × (l ≡ low))
  Within k (has_high s0 l h) = (5 ≤ k) ⊎ ((1 ≤ k) × (s0 ≡ seq) × (l ≡ low) × (h ≡ high))
  Within k returned = Unit

  at_most_seven : (p : ReaderPc) → Within 7 p
  at_most_seven first_load = omega arith
  at_most_seven (has_seq0 s0) = inl (omega arith)
  at_most_seven (has_low s0 l) = inl (omega arith)
  at_most_seven (has_high s0 l h) = inl (omega arith)
  at_most_seven returned = tt

  Next : (r k : ℕ) → Stand mutex → Type 0
  Next r k s = Still s × Within k (s.reader r)

  same_shared :
      (s s' : Stand mutex)
      → s'.seqlock ≡ s.seqlock
      → s'.low ≡ s.low
      → s'.high ≡ s.high
      → s'.exited ≡ s.exited
      → Still s
      → Still s'
  same_shared s s' same_seq same_low same_high same_exited still = record {
    is_seq = same_seq ∙ still.is_seq;
    is_low = same_low ∙ still.is_low;
    is_high = same_high ∙ still.is_high;
    fits = still.fits;
    even = still.even;
    is_last = still.is_last;
    running = same_exited ∙ still.running;
  }

  moved : (r k : ℕ) (s : Stand mutex) (p : ReaderPc) → Within k p → Within k (update s.reader r p r)
  moved r k s p within = subst (Within k) (sym (update_self s.reader r p)) within

  loads-Next :
      (r k : ℕ) (s : Stand mutex) (s0 l h : ℕ)
      → Still s
      → Within (suc k) (has_high s0 l h)
      → Next r k (after_loads mutex n iters inc r s s0 l h)
  unfolding after_loads Next
  loads-Next r k s s0 l h still within = elim (Bool-cases (not (s0 == s.seqlock) || s0 % 2 == 1)) [
    | inl changed ↦
        rw changed
          (same_shared s _ refl refl refl refl still, moved r k s first_load (stale within changed))
    | inr same ↦ rw same (
      same_shared s _ refl refl refl refl still,
      moved r k s _ (fresh within (join h l == last_copy mutex n iters inc) refl),
    )
  ]
    where
      stale :
          Within (suc k) (has_high s0 l h) → (not (s0 == s.seqlock) || s0 % 2 == 1) ≡ true → 4 ≤ k
      stale (inl many) e = omega arith
      stale (inr (some_left, is_seq0, _, _)) e =
          let now = still.is_seq in let even = still.even in absurd (ground (arith, now, even))

      fresh :
          Within (suc k) (has_high s0 l h)
          → (b : Bool) → (join h l == last_copy mutex n iters inc) ≡ b
          → Within k (if b then returned else first_load)
      fresh w true e = tt
      fresh (inl many) false e = omega arith
      fresh (inr (_, _, l_is, h_is)) false e =
          let last = still.is_last in
          let same : join h l ≡ last_copy mutex n iters inc = omega (arith, l_is, h_is, last) in
          let yes_same = (==_iff _ _).1 same in absurd (cc)

  turn-Next :
      (r k : ℕ) (s : Stand mutex) (p : ReaderPc)
      → Still s
      → s.reader r ≡ p
      → Within (suc k) p
      → Next r k (thread_reader mutex n iters inc r s p)
  unfolding thread_reader Next
  turn-Next r k s first_load still at within =
      (same_shared s _ refl refl refl refl still, moved r k s _ (inr (omega arith, still.is_seq)))
  turn-Next r k s (has_seq0 s0) still at (inl many) =
      (same_shared s _ refl refl refl refl still, moved r k s _ (inl (omega arith)))
  turn-Next r k s (has_seq0 s0) still at (inr (left, eq)) = (
    same_shared s _ refl refl refl refl still,
    moved r k s _ (inr (omega arith, eq, still.is_low)),
  )
  turn-Next r k s (has_low s0 l) still at (inl many) =
      (same_shared s _ refl refl refl refl still, moved r k s _ (inl (omega arith)))
  turn-Next r k s (has_low s0 l) still at (inr (left, eq, low_is)) = (
    same_shared s _ refl refl refl refl still,
    moved r k s _ (inr (omega arith, eq, low_is, still.is_high)),
  )
  turn-Next r k s (has_high s0 l h) still at within =
      loads-Next r k (record s { seqlock = u32 (s.seqlock + 0) }) s0 l h
        (same_shared s _
          (let now = still.is_seq in let fits = still.fits in omega (arith, now, fits)) refl refl
          refl still)
        within
  turn-Next r k s returned still at within = (still, subst (Within k) (sym at) tt)

  Within-returned : (p : ReaderPc) → Within 0 p → p ≡ returned
  Within-returned first_load w = absurd (omega arith)
  Within-returned (has_seq0 s0) (inl w) = absurd (omega arith)
  Within-returned (has_seq0 s0) (inr w) = absurd (omega arith)
  Within-returned (has_low s0 l) (inl w) = absurd (omega arith)
  Within-returned (has_low s0 l) (inr w) = absurd (omega arith)
  Within-returned (has_high s0 l h) (inl w) = absurd (omega arith)
  Within-returned (has_high s0 l h) (inr w) = absurd (omega arith)
  Within-returned returned w = refl

  turns-return :
      (r k : ℕ) (s : Stand mutex)
      → Next r k s
      → (play mutex n iters inc (turns_of r k) s).reader r ≡ returned
  unfolding play turn Next
  turns-return r zero s next = Within-returned (s.reader r) next.1
  turns-return r (suc k) s next =
      turns-return r k (if s.exited then s else thread_reader mutex n iters inc r s (s.reader r)) (
        subst (λ b. Next r k (if b then s else thread_reader mutex n iters inc r s (s.reader r)))
          (sym next.0.running) (turn-Next r k s (s.reader r) next.0 refl next.1))

module _ (mutex : Mutex) (num_writers num_iterations one_increment : ℕ) where
  play-append :
      (ts us : List Turn) (s : Stand mutex)
      → play mutex num_writers num_iterations one_increment (ts ++ us) s
        ≡ play mutex num_writers num_iterations one_increment us
            (play mutex num_writers num_iterations one_increment ts s)
  unfolding play
  play-append [] us s = refl
  play-append (t ∷ ts) us s = play-append ts us _

-- If the writers together increment the sequence counter fewer than 2^32 times, and in some
-- interleaving every writer has returned and `exit` has not been called, then a reader, wherever it
-- stands, returns within seven turns of its own.
pub reader_returns :
    (mutex : Mutex) (laws : MutexLaws mutex) (num_writers num_iterations one_increment : ℕ)
    → num_writers * (2 * num_iterations) < 2 ^ 32
    → (ts : List Turn) → WritersBelow num_writers ts
    → WritersDone mutex num_writers num_iterations
        (play mutex num_writers num_iterations one_increment ts (stand mutex))
    → (play mutex num_writers num_iterations one_increment ts (stand mutex)).exited ≡ false
    → (r : ℕ)
    → (play mutex num_writers num_iterations one_increment
          (ts ++ turns_of r 7)
          (stand mutex)).reader
        r
      ≡ returned
unfolding Next
reader_returns mutex laws n iters inc few ts valid writers_done running r =
    let s : Stand mutex = play mutex n iters inc ts (stand mutex) in
    let good = run-Inv inc mutex laws n iters few ts valid in
    let bound = seq-bound inc n iters few good.writing in
    let seq = final_seqlock mutex laws n iters inc few ts valid writers_done in
    ap (λ v. v.reader r) (play-append mutex n iters inc ts (turns_of r 7) (stand mutex))
    ∙ turns-return mutex n iters inc s.seqlock s.low s.high r 7 s (
      record {
        is_seq = refl;
        is_low = refl;
        is_high = refl;
        fits = omega (arith, bound, few);
        even = omega (arith, seq);
        is_last = written_result mutex laws n iters inc few ts valid writers_done;
        running = running;
      },
      at_most_seven mutex n iters inc s.seqlock s.low s.high (s.reader r),
    )
