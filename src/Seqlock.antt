-- ===== src/Seqlock.antt =====
-- 03_readers_writers/mutex-seqlock.c: writers that take a mutex and readers that do not wait for
-- them, interleaved one shared access at a time.
mod Invariant
mod Writers
mod Readers
mod Run
mod Safety
mod Return
mod Tests
use networking_howto.Mutex.{LockResult, acquired, blocked, refused, Mutex}
use networking_howto.Prelude.{
  update, ℕ, ◌+◌, ◌*◌, ◌/◌, ◌%◌, ◌^◌, Bool, true, false, ◌||◌, not, Option, none, some, List, [],
  ◌∷◌, if◌then◌else◌, ltb, ◌==◌, u32, u64,
}

-- Where a writer stands: at the test of its loop or trying to lock the mutex, or behind the access
-- of the round that the constructor names.
pub data WriterPc : Type 0 where
  outside : WriterPc
  locked : WriterPc
  entered : WriterPc
  loaded_low : (low : ℕ) → WriterPc
  storing_high : (current : ℕ) → WriterPc
  storing_low : (current : ℕ) → WriterPc
  stored : WriterPc
  unlocking : WriterPc

-- Where a reader stands, with what its round has loaded so far.
pub data ReaderPc : Type 0 where
  first_load : ReaderPc
  has_seq0 : (seq0 : ℕ) → ReaderPc
  has_low : (seq0 low : ℕ) → ReaderPc
  has_high : (seq0 low high : ℕ) → ReaderPc
  returned : ReaderPc

-- `(high << 32U) | low` of two values of `uint32_t`, whose bits do not meet.
abbrev pub join : (high low : ℕ) → ℕ
join high low = high * 2 ^ 32 + low

-- A turn of a writer, or of a reader.
pub data Turn : Type 0 where
  writes : (t : ℕ) → Turn
  reads : (r : ℕ) → Turn

module _ (mutex : Mutex) where
  open mutex use {State, initializer, lock, unlock}

  -- The shared variables, the loop variable `i` of each writer and the `copy` of each reader, and
  -- whether `exit` has been called.
  pub record Stand : Type 0 where
    pub wrmutex : State
    pub seqlock : ℕ
    pub low : ℕ
    pub high : ℕ
    pub writer : ℕ → WriterPc
    pub i : ℕ → ℕ
    pub reader : ℕ → ReaderPc
    pub copy : ℕ → ℕ
    pub exited : Bool

  abbrev pub go_writer : Stand → ℕ → WriterPc → Stand
  go_writer s t p = record s { writer = update s.writer t p }

  abbrev pub go_reader : Stand → ℕ → ReaderPc → Stand
  go_reader s r p = record s { reader = update s.reader r p }

  abbrev pub after_lock : ℕ → Stand → LockResult State → Stand
  after_lock t s (acquired m) = go_writer (record s { wrmutex = m }) t locked
  after_lock t s blocked = s
  after_lock t s refused = record s { exited = true }

  abbrev pub after_unlock : ℕ → Stand → Option State → Stand
  after_unlock t s none = record s { exited = true }
  after_unlock t s (some m) =
      go_writer (record s { wrmutex = m; i = update s.i t (u64 (s.i t + 1)) }) t outside

  module _ (num_writers num_iterations one_increment : ℕ) where
    -- One step of writer `t`.
    unfoldable pub thread_writer : ℕ → Stand → WriterPc → Stand
    thread_writer t s outside =
        if ltb (s.i t) num_iterations then after_lock t s (lock t s.wrmutex) else s
    thread_writer t s locked = go_writer (record s { seqlock = u32 (s.seqlock + 1) }) t entered
    thread_writer t s entered = go_writer s t (loaded_low s.low)
    thread_writer t s (loaded_low low) =
        go_writer s t (storing_high (u64 (join s.high low + one_increment)))
    thread_writer t s (storing_high current) =
        go_writer (record s { high = u32 (current / 2 ^ 32) }) t (storing_low current)
    thread_writer t s (storing_low current) =
        go_writer (record s { low = current % 2 ^ 32 }) t stored
    thread_writer t s stored = go_writer (record s { seqlock = u32 (s.seqlock + 1) }) t unlocking
    thread_writer t s unlocking = after_unlock t s (unlock t s.wrmutex)

    -- The value at which a reader stops.
    abbrev pub last_copy : ℕ
    last_copy = u64 (num_writers * num_iterations * one_increment)

    -- Behind the second load: once more if a writer was in between, and the test of the outer loop.
    unfoldable pub after_loads : ℕ → Stand → (seq0 low high : ℕ) → Stand
    after_loads r s seq0 low high =
        if not (seq0 == s.seqlock) || seq0 % 2 == 1
        then go_reader s r first_load
        else go_reader (record s { copy = update s.copy r (join high low) }) r
            (if join high low == last_copy then returned else first_load)

    -- One step of reader `r`.
    unfoldable pub thread_reader : ℕ → Stand → ReaderPc → Stand
    unfolding after_loads
    thread_reader r s first_load = go_reader s r (has_seq0 s.seqlock)
    thread_reader r s (has_seq0 seq0) = go_reader s r (has_low seq0 s.low)
    thread_reader r s (has_low seq0 low) = go_reader s r (has_high seq0 low s.high)
    thread_reader r s (has_high seq0 low high) =
        after_loads r (record s { seqlock = u32 (s.seqlock + 0) }) seq0 low high
    thread_reader r s returned = s

    unfoldable pub turn : Turn → Stand → Stand
    unfolding thread_writer thread_reader
    turn (writes t) s = thread_writer t s (s.writer t)
    turn (reads r) s = thread_reader r s (s.reader r)

    -- The threads take turns in any order, until one of them calls `exit`.
    unfoldable pub play : List Turn → Stand → Stand
    unfolding turn
    play [] s = s
    play (t ∷ ts) s = play ts (if s.exited then s else turn t s)

  abbrev pub stand : Stand
  stand = record {
    wrmutex = initializer;
    seqlock = 0;
    low = 0;
    high = 0;
    writer = λ t. outside;
    i = λ t. 0;
    reader = λ r. first_load;
    copy = λ r. 0;
    exited = false;
  }
