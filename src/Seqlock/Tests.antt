-- ===== src/Seqlock/Tests.antt =====
-- One writer of one round and a reader under the sequence lock, and the theorems there.
use networking_howto.Mutex.Plain.{plain_mutex, plain_laws}
use networking_howto.Prelude.{
  zero, suc, ℕ, ◌*◌, ◌≤◌, ◌≡◌, false, List, [], ◌∷◌, ◌++◌, u64, refl, arith,
}
use networking_howto.Seqlock.{
  returned, join, Turn, writes, reads, stand, play, turn, thread_writer, thread_reader, after_loads,
}
use networking_howto.Seqlock.Safety.{
  WritersDone, copies_are_whole, written_result, reader_returns_last,
}
use networking_howto.Seqlock.Return.{turns_of, reader_returns}

-- The writer's round, in which the reader tries in vain, and then reads the value.
abbrev writer_round : List Turn
writer_round =
    writes 0
    ∷ reads 0
    ∷ writes 0
    ∷ writes 0
    ∷ reads 0
    ∷ writes 0
    ∷ writes 0
    ∷ reads 0
    ∷ writes 0
    ∷ writes 0
    ∷ reads 0
    ∷ writes 0
    ∷ []

abbrev and_read : List Turn
and_read = writer_round ++ turns_of 0 4

writer_round-Done :
    WritersDone plain_mutex 1 1 (play plain_mutex 1 1 5 writer_round (stand plain_mutex))
unfolding play turn thread_writer thread_reader after_loads
writer_round-Done zero l = (refl, refl)
writer_round-Done (suc u) l = absurd (omega (arith, l))

copies_are_whole_example :
    (k : ℕ) × (k ≤ 1 * 1)
    × ((play plain_mutex 1 1 5 and_read (stand plain_mutex)).copy 0 ≡ u64 (k * 5))
copies_are_whole_example =
    copies_are_whole plain_mutex plain_laws 1 1 5 (omega arith) and_read (omega arith) 0

written_result_example :
    let s = play plain_mutex 1 1 5 writer_round (stand plain_mutex) in
    join s.high s.low ≡ u64 (1 * 1 * 5)
written_result_example =
    written_result plain_mutex plain_laws 1 1 5 (omega arith) writer_round (omega arith)
      writer_round-Done

and_read-returned : (play plain_mutex 1 1 5 and_read (stand plain_mutex)).reader 0 ≡ returned
unfolding play turn thread_writer thread_reader after_loads
and_read-returned = refl

reader_returns_last_example :
    let s = play plain_mutex 1 1 5 and_read (stand plain_mutex) in
    (s.copy 0 ≡ 1 * 1 * 5) × (join s.high s.low ≡ 1 * 1 * 5) × (s.seqlock ≡ 2 * (1 * 1))
reader_returns_last_example =
    reader_returns_last plain_mutex plain_laws 1 1 5 (omega arith) and_read (omega arith) 0
      (omega arith) (omega arith) and_read-returned

writer_round_running : (play plain_mutex 1 1 5 writer_round (stand plain_mutex)).exited ≡ false
unfolding play turn thread_writer thread_reader after_loads
writer_round_running = refl

reader_returns_example :
    (play plain_mutex 1 1 5 (writer_round ++ turns_of 0 7) (stand plain_mutex)).reader 0 ≡ returned
reader_returns_example =
    reader_returns plain_mutex plain_laws 1 1 5 (omega arith) writer_round (omega arith)
      writer_round-Done writer_round_running 0
