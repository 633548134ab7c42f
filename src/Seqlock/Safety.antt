-- ===== src/Seqlock/Safety.antt =====
-- What the readers of 03_readers_writers/mutex-seqlock.c get, and what the program prints.
use networking_howto.Mutex.{Mutex, MutexLaws}
use networking_howto.Prelude.{
  ℕ_discrete, total-all, ℕ, ◌+◌, ◌*◌, ◌/◌, ◌%◌, ◌^◌, ◌≤◌, ◌<◌, ◌≡◌, List, arith, ap, ◌∙◌, u64,
}
use networking_howto.Seqlock.{outside, returned, join, Turn, Stand, play, stand}
use networking_howto.Seqlock.Invariant.{value_after, all_ticks}
use networking_howto.Seqlock.Writers.{seq-bound, even-AtRest}
use networking_howto.Seqlock.Readers.{WritersBelow}
use networking_howto.Seqlock.Run.{run-Inv}

-- Every writer has returned from `thread_writer`.
abbrev pub WritersDone : (mutex : Mutex) (num_writers num_iterations : ℕ) → Stand mutex → Type 0
WritersDone mutex num_writers num_iterations s =
    (t : ℕ) → t < num_writers → (s.writer t ≡ outside) × (s.i t ≡ num_iterations)

module _ (mutex : Mutex) (laws : MutexLaws mutex) (num_writers num_iterations one_increment : ℕ)
    (few : num_writers * (2 * num_iterations) < 2 ^ 32) (ts : List Turn)
    (valid : WritersBelow num_writers ts) where
  abbrev after : Stand mutex
  after = play mutex num_writers num_iterations one_increment ts (stand mutex)

  -- In any interleaving of the writers and any number of readers, if the writers together increment
  -- the sequence counter fewer than 2^32 times, then the copy of each reader is the increment times
  -- some number of rounds, as a `uint64_t`: it is never put together from the halves of two values.
  -- The number of rounds is at most that of all writers.
  pub copies_are_whole :
      (r : ℕ)
      → (k : ℕ) × (k ≤ num_writers * num_iterations) × (after.copy r ≡ u64 (k * one_increment))
  copies_are_whole r =
      let good = run-Inv one_increment mutex laws num_writers num_iterations few ts valid in
      let (k, small, e) = good.copied r in
      let bound = seq-bound one_increment num_writers num_iterations few good.writing in
      let product : num_writers * (2 * num_iterations) ≡ 2 * (num_writers * num_iterations) =
        grind arith in
      (k, omega (arith, small, bound, product), e)

  pub final_seqlock :
      WritersDone mutex num_writers num_iterations after
      → after.seqlock ≡ 2 * (num_writers * num_iterations)
  final_seqlock returned_all =
      let good = run-Inv one_increment mutex laws num_writers num_iterations few ts valid in
      let sum =
        good.writing.counted
        ∙ total-all num_writers (2 * num_iterations) _ (λ u l. rounds u (returned_all u l)) in
      let product : num_writers * (2 * num_iterations) ≡ 2 * (num_writers * num_iterations) =
        grind arith in
      omega (arith, sum, product)
    where
      rounds :
          (u : ℕ)
          → (after.writer u ≡ outside) × (after.i u ≡ num_iterations)
          → all_ticks one_increment after.writer after.i u ≡ 2 * num_iterations
      rounds u (pc, i) = rw (pc, i) (omega arith)

  -- If the writers together increment the sequence counter fewer than 2^32 times, then in any
  -- interleaving, once every writer has returned, the two halves that `main` prints are
  -- those of the number of writers times their rounds times the increment, as a `uint64_t`.
  pub written_result :
      WritersDone mutex num_writers num_iterations after
      → join after.high after.low ≡ u64 (num_writers * num_iterations * one_increment)
  written_result returned_all =
      let good = run-Inv one_increment mutex laws num_writers num_iterations few ts valid in
      let seq = final_seqlock returned_all in
      let half : after.seqlock / 2 ≡ num_writers * num_iterations = omega (arith, seq) in
      (even-AtRest one_increment num_writers num_iterations few good.writing (omega (arith, seq))).1
      ∙ ap (value_after one_increment) half

  -- If the writers together increment the sequence counter fewer than 2^32 times, then in any
  -- interleaving, if the last value of the variable is below 2^64 and the increment is not
  -- 0, a reader that has returned has copied that value, the variable holds it, and the sequence
  -- counter shows that every round of every writer has been made.
  pub reader_returns_last :
      (r : ℕ)
      → 0 < one_increment
      → num_writers * num_iterations * one_increment < 2 ^ 64
      → after.reader r ≡ returned
      → (after.copy r ≡ num_writers * num_iterations * one_increment)
        × (join after.high after.low ≡ num_writers * num_iterations * one_increment)
        × (after.seqlock ≡ 2 * (num_writers * num_iterations))
  reader_returns_last r positive small at =
      let all : ℕ = num_writers * num_iterations in
      let good = run-Inv one_increment mutex laws num_writers num_iterations few ts valid in
      let (k, below, e) = good.copied r in
      let bound = seq-bound one_increment num_writers num_iterations few good.writing in
      let product : num_writers * (2 * num_iterations) ≡ 2 * (num_writers * num_iterations) =
        grind arith in
      let last = good.last r at in
      let copy : after.copy r ≡ num_writers * num_iterations * one_increment =
        omega (arith, last, small) in
      let is_all : k ≡ num_writers * num_iterations =
        all_rounds k (num_writers * num_iterations) one_increment positive
          (omega (arith, below, bound, product)) small (omega (arith, copy, e)) in
      let seq : after.seqlock ≡ 2 * (num_writers * num_iterations) =
        omega (arith, below, bound, product, is_all) in
      let half : after.seqlock / 2 ≡ num_writers * num_iterations = omega (arith, seq) in
      let whole =
        (even-AtRest one_increment num_writers num_iterations few good.writing
          (omega (arith, seq))).1
        ∙ ap (value_after one_increment) half in
      (copy, omega (arith, whole, small), seq)
    where
      all_rounds :
          (k all inc : ℕ)
          → 0 < inc
          → k ≤ all
          → all * inc < 2 ^ 64
          → (k * inc) % 2 ^ 64 ≡ all * inc
          → k ≡ all
      all_rounds k all inc positive le fits e = elim (ℕ_discrete k all) [
        | yes same ↦ same
        | no ne ↦
            let less : (k + 1) * inc ≤ all * inc =
              let more : k + 1 ≤ all = omega (arith, ne, le) in grind arith in
            let next : (k + 1) * inc ≡ k * inc + inc = grind arith in
            absurd (omega (arith, less, next, e, fits, positive))
      ]
