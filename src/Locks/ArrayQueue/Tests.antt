-- ===== src/Locks/ArrayQueue/Tests.antt =====
-- Two threads of one round each under the lock of arrayqueue-lock.c, with two nodes.
use networking_howto.Prelude.{ℕ, zero, suc, ◌*◌, ◌<◌, ◌≡◌, ◌≢◌, List, [], ◌∷◌, u32, refl, arith}
use networking_howto.Locks.Threads.{loading}
use networking_howto.Locks.Counter.{AllBelow}
use networking_howto.Locks.ArrayQueue.{
  outside, spinning, inside, run, start, thread_at, aql_acquire_first, aql_acquire_test,
  aql_release_first, aql_release_second,
}
use networking_howto.Locks.ArrayQueue.Safety.{aql_excludes, aql_counts}

-- Thread 0 is in the critical section, and thread 1 waits.
abbrev one_inside : List ℕ
one_inside = 0 ∷ 1 ∷ 0 ∷ 1 ∷ []

-- Thread 0 has its round, and then thread 1.
abbrev both_rounds : List ℕ
both_rounds = 0 ∷ 1 ∷ 0 ∷ 1 ∷ 0 ∷ 0 ∷ 0 ∷ 1 ∷ 0 ∷ 1 ∷ 1 ∷ 1 ∷ 1 ∷ 1 ∷ []

one_inside-AllBelow : AllBelow 2 one_inside
one_inside-AllBelow = omega arith

both_rounds-AllBelow : AllBelow 2 both_rounds
both_rounds-AllBelow = omega arith

first_inside :
    let s = run 1 one_inside (start 2) in (s.pc 0 ≡ inside loading) × (s.pc 1 ≡ spinning 1 1)
unfolding run thread_at aql_acquire_first aql_acquire_test
first_inside = (refl, refl)

both_return :
    (u : ℕ) → u < 2 → let s = run 1 both_rounds (start 2) in (s.pc u ≡ outside) × (s.i u ≡ 1)
unfolding run thread_at aql_acquire_first aql_acquire_test aql_release_first aql_release_second
both_return zero l = (refl, refl)
both_return (suc zero) l = (refl, refl)
both_return (suc (suc u)) l = absurd (omega (arith, l))

aql_excludes_example : (run 1 one_inside (start 2)).pc 1 ≢ inside loading
aql_excludes_example =
    aql_excludes 1 2 1 (omega arith) (omega arith) one_inside one_inside-AllBelow 0 1 loading
      loading (omega arith) (omega arith) (omega arith) first_inside.0

aql_counts_example : (run 1 both_rounds (start 2)).var ≡ u32 (2 * 1)
aql_counts_example =
    aql_counts 1 2 1 (omega arith) (omega arith) (omega arith) both_rounds both_rounds-AllBelow
      both_return
