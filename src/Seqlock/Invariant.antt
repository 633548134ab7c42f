-- ===== src/Seqlock/Invariant.antt =====
-- What holds of the writers of 03_readers_writers/mutex-seqlock.c between two steps.
use networking_howto.Prelude.{
  total, ℕ, suc, ◌+◌, ◌*◌, ◌/◌, ◌%◌, ◌^◌, ◌≤◌, ◌<◌, ◌≡◌, ◌≢◌, Option, none, some, u64,
}
use networking_howto.Seqlock.{
  WriterPc, outside, locked, entered, loaded_low, storing_high, storing_low, stored, unlocking,
  join,
}

module _ (one_increment : ℕ) where
  -- The value of the variable after `k` increments.
  abbrev pub value_after : ℕ → ℕ
  value_after k = u64 (k * one_increment)

  -- No writer is between the two increments of the counter.
  abbrev pub AtRest : (seq low high : ℕ) → Type 0
  AtRest seq low high = (seq % 2 ≡ 0) × (join high low ≡ value_after (seq / 2))

  -- What the owner of the mutex knows, at each place of its round.
  abbrev pub Stage : WriterPc → (seq low high : ℕ) → Type 0
  Stage outside seq low high = ⊥
  Stage locked seq low high = AtRest seq low high
  Stage entered seq low high = (seq % 2 ≡ 1) × (join high low ≡ value_after (seq / 2))
  Stage (loaded_low l) seq low high =
      (seq % 2 ≡ 1) × (join high low ≡ value_after (seq / 2)) × (l ≡ low)
  Stage (storing_high c) seq low high = (seq % 2 ≡ 1) × (c ≡ value_after (suc (seq / 2)))
  Stage (storing_low c) seq low high =
      (seq % 2 ≡ 1) × (c ≡ value_after (suc (seq / 2))) × (high ≡ c / 2 ^ 32)
  Stage stored seq low high = (seq % 2 ≡ 1) × (join high low ≡ value_after (suc (seq / 2)))
  Stage unlocking seq low high = AtRest seq low high

  -- How often the round has incremented the counter.
  abbrev pub ticks : WriterPc → ℕ
  ticks outside = 0
  ticks locked = 0
  ticks unlocking = 2
  ticks p = 1

  abbrev pub all_ticks : (ℕ → WriterPc) → (ℕ → ℕ) → ℕ → ℕ
  all_ticks writer i u = 2 * i u + ticks (writer u)

  -- Whether a round is to be finished.
  abbrev pub unfinished : WriterPc → ℕ
  unfinished outside = 0
  unfinished p = 1

  module _ (num_writers num_iterations : ℕ) where
    pub record Writing (owner : Option ℕ) (seq low high : ℕ) (writer : ℕ → WriterPc) (i : ℕ → ℕ)
        : Type 0 where
      pub rest : owner ≡ none → AtRest seq low high
      pub held : (t : ℕ) → owner ≡ some t → (t < num_writers) × Stage (writer t) seq low high
      pub waits : (t : ℕ) → owner ≢ some t → writer t ≡ outside
      pub narrow : (low < 2 ^ 32) × (high < 2 ^ 32)
      pub rounds : (t : ℕ) → i t + unfinished (writer t) ≤ num_iterations
      pub counted : seq ≡ total num_writers (all_ticks writer i)
