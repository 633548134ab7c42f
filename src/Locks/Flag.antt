-- ===== src/Locks/Flag.antt =====
-- The locks that are one flag: spinlock.c (`SIMPLE_TAS_Lock`), tas-lock.c (`TAS_Lock`) and
-- ttas-lock.c (`TTAS_Lock`). The state is `lock_taken`. The random part of the time to sleep is left
-- out, and so is the sleep: neither has an effect on the lock.
pub mod Exclusion
use networking_howto.Prelude.{
  ℕ, ◌*◌, ◌≡◌, Bool, true, false, Option, none, some, if◌then◌else◌, ltb, u32,
}
use networking_howto.Locks.Threads.{SpinLock}

-- What the locks share: they are created and released by `atomic_flag_clear`, and `attempt` is an
-- access of the loop that acquires the lock, entered with `first`.
abbrev pub flag_lock : (W : Type 0) → W → (W → Bool → Bool × Option W) → SpinLock
flag_lock W first attempt = record {
  State = Bool;
  Wait = W;
  init = false;
  begin = λ lock_taken. (lock_taken, first);
  attempt = attempt;
  release = λ lock_taken. false;
}

-- `atomic_flag_test_and_set`: the old value, and the new one.
abbrev test_and_set : Bool → Bool × Bool
test_and_set lock_taken = (lock_taken, true)

-- One round of the loop of `SIMPLE_TAS_acquire`.
unfoldable pub simple_tas_acquire : Unit {0} → Bool → Bool × Option (Unit {0})
simple_tas_acquire w lock_taken =
    let (old, lock_taken') = test_and_set lock_taken in (lock_taken', if old then some tt else none)

abbrev pub simple_tas_lock : SpinLock
simple_tas_lock = flag_lock (Unit {0}) tt simple_tas_acquire

abbrev pub min_backoff : ℕ
min_backoff = 1000

abbrev max_backoff : ℕ
max_backoff = 64000

abbrev next_backoff : ℕ → ℕ
next_backoff backoff_sleep =
    if ltb backoff_sleep max_backoff then u32 (backoff_sleep * 2) else backoff_sleep

-- One round of the loop of `TAS_acquire`.
unfoldable pub tas_acquire : (backoff_sleep : ℕ) → Bool → Bool × Option ℕ
tas_acquire backoff_sleep lock_taken =
    let (old, lock_taken') = test_and_set lock_taken in
    (lock_taken', if old then some (next_backoff backoff_sleep) else none)

abbrev pub tas_lock : SpinLock
tas_lock = flag_lock ℕ min_backoff tas_acquire

-- Where `TTAS_acquire` stands, with its backoff: before the load of the flag, or having read zero.
pub data TtasWait : Type 0 where
  before_test seen_free : (backoff_sleep : ℕ) → TtasWait

-- One shared access of the loop of `TTAS_acquire`.
unfoldable pub ttas_acquire : TtasWait → Bool → Bool × Option TtasWait
ttas_acquire (before_test backoff_sleep) lock_taken = (
  lock_taken,
  some (if lock_taken then before_test (next_backoff backoff_sleep) else seen_free backoff_sleep),
)
ttas_acquire (seen_free backoff_sleep) lock_taken =
    let (old, lock_taken') = test_and_set lock_taken in
    (lock_taken', if old then some (before_test backoff_sleep) else none)

abbrev pub ttas_lock : SpinLock
ttas_lock = flag_lock TtasWait (before_test min_backoff) ttas_acquire
