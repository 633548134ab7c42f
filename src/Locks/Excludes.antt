-- ===== src/Locks/Excludes.antt =====
-- What a lock promises the threads that use it, and what their counter then holds.
use networking_howto.Prelude.{update, ℕ, ◌≤◌, ◌<◌, ◌≡◌, ◌≢◌, refl}
use networking_howto.Locks.Threads.{
  SpinLock, Section, loading, storing, releasing, Pc, outside, waiting, inside, after_attempt,
}

-- An invariant of the lock and of where `num_threads` threads stand, under which two threads are
-- never inside together. Each law is about one step of a thread.
pub record Excludes (lock : SpinLock) (num_threads : ℕ) : Type 1 where
  pub Holds : lock.State → (ℕ → Pc lock.Wait) → Type 0
  pub starts : Holds lock.init (λ t. outside)
  pub begins :
      (s : lock.State) (pc : ℕ → Pc lock.Wait) (t : ℕ)
      → t < num_threads
      → Holds s pc
      → pc t ≡ outside
      → Holds (lock.begin s).0 (update pc t (waiting (lock.begin s).1))
  pub attempts :
      (s : lock.State) (pc : ℕ → Pc lock.Wait) (t : ℕ) (w : lock.Wait)
      → t < num_threads
      → Holds s pc
      → pc t ≡ waiting w
      → Holds (lock.attempt w s).0 (update pc t (after_attempt lock (lock.attempt w s).1))
  pub moves :
      (s : lock.State) (pc : ℕ → Pc lock.Wait) (t : ℕ) (c c' : Section)
      → t < num_threads
      → Holds s pc
      → pc t ≡ inside c
      → Holds s (update pc t (inside c'))
  pub releases :
      (s : lock.State) (pc : ℕ → Pc lock.Wait) (t : ℕ) (c : Section)
      → t < num_threads
      → Holds s pc
      → pc t ≡ inside c
      → Holds (lock.release s) (update pc t outside)
  pub exclusive :
      (s : lock.State) (pc : ℕ → Pc lock.Wait) (t u : ℕ) (c c' : Section)
      → t < num_threads
      → u < num_threads
      → Holds s pc
      → pc t ≡ inside c
      → pc u ≡ inside c'
      → t ≡ u

module _ {W : Type 0} where
  -- A value that was loaded is still that of `var`.
  abbrev pub Loaded : ℕ → Pc W → Type 0
  Loaded var outside = Unit
  Loaded var (waiting w) = Unit
  Loaded var (inside loading) = Unit
  Loaded var (inside (storing value)) = value ≡ var
  Loaded var (inside releasing) = Unit

  -- A thread that is not at the loop's test has a round to finish.
  abbrev pub Rounds : ℕ → ℕ → Pc W → Type 0
  Rounds num_iterations i outside = i ≤ num_iterations
  Rounds num_iterations i (waiting w) = i < num_iterations
  Rounds num_iterations i (inside c) = i < num_iterations

  -- The increment of the round that is not over.
  abbrev pub extra : Pc W → ℕ
  extra outside = 0
  extra (waiting w) = 0
  extra (inside loading) = 0
  extra (inside (storing value)) = 0
  extra (inside releasing) = 1

  pub Loaded-outside : (var : ℕ) (p : Pc W) → ((c : Section) → p ≢ inside c) → Loaded var p
  Loaded-outside var outside out = tt
  Loaded-outside var (waiting w) out = tt
  Loaded-outside var (inside c) out = absurd (out c refl)
