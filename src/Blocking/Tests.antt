-- ===== src/Blocking/Tests.antt =====
-- Two threads of two rounds with and without a lock, and the theorems there.
use networking_howto.Mutex.Plain.{plain_mutex, plain_laws}
use networking_howto.Prelude.{
  total, ℕ, zero, suc, ◌*◌, ◌≤◌, ◌<◌, ◌≡◌, List, [], ◌∷◌, u32, refl, arith,
}
use networking_howto.Locks.Counter.{AllBelow}
use networking_howto.Blocking.{outside, work, worker_at, begin_work}
use networking_howto.Blocking.Counter.{blocking_counts}
use networking_howto.Blocking.Race.{race_run, race_start, in_step, race_at_most, race_loses_half}

-- Thread 1 tries in vain to take the lock while thread 0 holds it.
abbrev turns : List ℕ
turns = 0 ∷ 1 ∷ 0 ∷ 1 ∷ 0 ∷ 0 ∷ 1 ∷ 0 ∷ 1 ∷ 1 ∷ 1 ∷ []

turns-AllBelow : AllBelow 2 turns
turns-AllBelow = omega arith

turns-returned :
    let s = work plain_mutex 1 turns (begin_work plain_mutex) in
    (u : ℕ) → u < 2 → (s.pc u ≡ outside) × (s.i u ≡ 1)
unfolding work worker_at
turns-returned zero l = (refl, refl)
turns-returned (suc zero) l = (refl, refl)
turns-returned (suc (suc u)) l = absurd (omega (arith, l))

blocking_counts_example : (work plain_mutex 1 turns (begin_work plain_mutex)).var ≡ u32 (2 * 1)
blocking_counts_example =
    blocking_counts plain_mutex plain_laws 2 1 (omega arith) turns turns-AllBelow turns-returned

race_at_most_example :
    let s = race_run 2 (in_step 2) race_start in (s.var ≤ total 2 s.i) × (s.var ≤ 2 * 2)
race_at_most_example = race_at_most 2 2 (omega arith) (in_step 2) (omega arith)

race_loses_half_example :
    let s = race_run 2 (in_step 2) race_start in (s.i 0 ≡ 2) × (s.i 1 ≡ 2) × (s.var ≡ 2)
race_loses_half_example = race_loses_half 2 (omega arith)
