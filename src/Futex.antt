-- ===== src/Futex.antt =====
-- 02_nonblocking_sync/futex.c: a mutex over the futex call of Linux, and the threads that count under
-- it, interleaved one shared access or one call at a time.
pub mod Ownership
pub mod Sleepers
pub mod Kept
pub mod Lock
pub mod Unlock
pub mod Invariant
pub mod Places
pub mod Counter
pub mod Safety
mod Tests
use networking_howto.Prelude.{
  update, ℕ, ◌+◌, Bool, true, false, not, ◌&&◌, ◌||◌, Option, none, some, List, [], ◌∷◌,
  if◌then◌else◌, ◌==◌, ltb, u32, sub32, u64,
}

-- The states of the mutex: unlocked, locked, and locked with threads that may wait.
abbrev pub m_ulockd : ℕ
m_ulockd = 0

abbrev pub m_lockd : ℕ
m_lockd = 1

abbrev pub m_lockd_wq : ℕ
m_lockd_wq = 2

-- In the critical section: about to load the mutex for the first, the second or the third comparison
-- of the test, to load `var`, to store its value plus one, or to call `unlock`.
pub data Section : Type 0 where
  checking : Section
  checking_free : Section
  checking_wq : Section
  loading : Section
  storing : (value : ℕ) → Section
  unlocking : Section

-- Where a thread stands: at the test of the for loop; in `lock`, about to exchange the state, about to
-- call FUTEX_WAIT or asleep in it; in the critical section; in `unlock`, about to store the state or
-- to call FUTEX_WAKE.
pub data Pc : Type 0 where
  outside : Pc
  exchanging : Pc
  to_wait : Pc
  asleep : Pc
  inside : Section → Pc
  to_store : Pc
  to_wake : Pc

-- `*mutex` and `var`, whether the message of an invalid mutex was printed, and the place and the loop
-- variable `i` of each thread.
pub record System : Type 0 where
  pub mutex : ℕ
  pub var : ℕ
  pub invalid : Bool
  pub pc : ℕ → Pc
  pub i : ℕ → ℕ

abbrev pub go : System → ℕ → Pc → System
go s t p = record s { pc = update s.pc t p }

-- Which of the threads are asleep in FUTEX_WAIT.
abbrev pub is_asleep : Pc → Bool
is_asleep asleep = true
is_asleep outside = false
is_asleep exchanging = false
is_asleep to_wait = false
is_asleep (inside c) = false
is_asleep to_store = false
is_asleep to_wake = false

-- The choice that the kernel makes among those that are asleep, when it wakes one.
abbrev pub Pick : Type 0
Pick = (ℕ → Bool) → Option ℕ

-- The first access of `lock`, a compare and exchange, with the tests of `status` that follow.
unfoldable pub lock_first : System → ℕ → System
lock_first s t =
    if s.mutex == m_ulockd
    then go (record s { mutex = m_lockd }) t (inside checking)
    else if not (s.mutex == m_lockd_wq)
    then go s t exchanging
    else go s t to_wait

-- The exchange, before the loop of `lock` or in it, and the test of the loop.
unfoldable pub lock_exchange : System → ℕ → System
lock_exchange s t =
    go (record s { mutex = m_lockd_wq }) t
      (if not (s.mutex == m_ulockd) then to_wait else inside checking)

-- FUTEX_WAIT, which puts the thread to sleep only if the state is the expected one.
unfoldable pub futex_wait : System → ℕ → System
futex_wait s t = if s.mutex == m_lockd_wq then go s t asleep else go s t exchanging

-- The end of a round.
abbrev pub next_round : System → ℕ → System
next_round s t = go (record s { i = update s.i t (u64 (s.i t + 1)) }) t outside

-- The first access of `unlock`, with the test of its result.
unfoldable pub unlock_first : System → ℕ → System
unlock_first s t =
    let s' = record s { mutex = sub32 s.mutex 1 } in
    if not (s.mutex == m_lockd) then go s' t to_store else next_round s' t

-- One that was woken goes on in the loop of `lock`.
abbrev pub woken : Option ℕ → System → System
woken none s = s
woken (some u) s = go s u exchanging

-- FUTEX_WAKE of one thread.
unfoldable pub futex_wake : Pick → System → ℕ → System
futex_wake pick s t = next_round (woken (pick (λ u. is_asleep (s.pc u))) s) t

-- One step of the `thread_func` of thread `t`.
unfoldable pub thread_at : (num_iterations : ℕ) → Pick → ℕ → System → Pc → System
thread_at num_iterations pick t s outside = if ltb (s.i t) num_iterations then lock_first s t else s
thread_at num_iterations pick t s exchanging = lock_exchange s t
thread_at num_iterations pick t s to_wait = futex_wait s t
thread_at num_iterations pick t s asleep = s
thread_at num_iterations pick t s (inside checking) =
    go s t (inside (if not (s.mutex == m_lockd) then checking_free else loading))
thread_at num_iterations pick t s (inside checking_free) =
    go s t (inside (if not (s.mutex == m_ulockd) then checking_wq else loading))
thread_at num_iterations pick t s (inside checking_wq) =
    go (record s { invalid = s.invalid || not (s.mutex == m_lockd_wq) }) t (inside loading)
thread_at num_iterations pick t s (inside loading) = go s t (inside (storing s.var))
thread_at num_iterations pick t s (inside (storing value)) =
    go (record s { var = u32 (value + 1) }) t (inside unlocking)
thread_at num_iterations pick t s (inside unlocking) = unlock_first s t
thread_at num_iterations pick t s to_store = go (record s { mutex = m_ulockd }) t to_wake
thread_at num_iterations pick t s to_wake = futex_wake pick s t

-- The turn of a thread, with the choice of the kernel, or a signal that ends the sleep of a thread.
pub data Event : Type 0 where
  turn : (t : ℕ) → Pick → Event
  signal : (t : ℕ) → Event

unfoldable pub step : (num_iterations : ℕ) → Event → System → System
step num_iterations (turn t pick) s = thread_at num_iterations pick t s (s.pc t)
step num_iterations (signal t) s = if is_asleep (s.pc t) then go s t exchanging else s

-- The events come in any order.
unfoldable pub run : (num_iterations : ℕ) → List Event → System → System
run num_iterations [] s = s
run num_iterations (e ∷ es) s = run num_iterations es (step num_iterations e s)

abbrev pub start : System
start = record { mutex = m_ulockd; var = 0; invalid = false; pc = λ t. outside; i = λ t. 0 }
