-- ===== src/Locks/Tests.antt =====
-- Two threads of one round each under the spin locks, and the theorems there.
use networking_howto.Prelude.{ℕ, zero, suc, ◌*◌, ◌≡◌, List, [], ◌∷◌, u32, refl, arith}
use networking_howto.Locks.Threads.{loading, storing, run, start, thread_at}
use networking_howto.Locks.Insiders.{IsInside}
use networking_howto.Locks.Counter.{AllBelow, AllDone}
use networking_howto.Locks.Flag.{ttas_lock, ttas_acquire}
use networking_howto.Locks.Ticket.{ticket_lock, ticket_lock_acquire, ticket_lock_release}
use networking_howto.Locks.Safety.{
  ttas, lock_of, flag_locks_exclude, flag_locks_count, ticket_lock_excludes, ticket_lock_counts,
}

-- Thread 0 is in the critical section, and thread 1 waits.
abbrev one_inside : List ℕ
one_inside = 0 ∷ 1 ∷ 0 ∷ 1 ∷ 0 ∷ 1 ∷ []

-- Thread 1 waits while thread 0 has its round, and then has its own.
abbrev both_rounds : List ℕ
both_rounds = 0 ∷ 1 ∷ 0 ∷ 0 ∷ 1 ∷ 0 ∷ 0 ∷ 0 ∷ 1 ∷ 1 ∷ 1 ∷ 1 ∷ 1 ∷ 1 ∷ []

one_inside-AllBelow : AllBelow 2 one_inside
one_inside-AllBelow = omega arith

both_rounds-AllBelow : AllBelow 2 both_rounds
both_rounds-AllBelow = omega arith

ttas-AllDone : AllDone ttas_lock 2 1 (run ttas_lock 1 both_rounds (start ttas_lock))
unfolding run thread_at ttas_acquire
ttas-AllDone zero l = (refl, refl)
ttas-AllDone (suc zero) l = (refl, refl)
ttas-AllDone (suc (suc u)) l = absurd (omega (arith, l))

ticket-AllDone : AllDone ticket_lock 2 1 (run ticket_lock 1 both_rounds (start ticket_lock))
unfolding run thread_at ticket_lock_acquire ticket_lock_release
ticket-AllDone zero l = (refl, refl)
ticket-AllDone (suc zero) l = (refl, refl)
ticket-AllDone (suc (suc u)) l = absurd (omega (arith, l))

flag_locks_exclude_example :
    ¬ IsInside ((run (lock_of ttas) 1 one_inside (start (lock_of ttas))).pc 1)
unfolding run thread_at ttas_acquire
flag_locks_exclude_example =
    flag_locks_exclude 2 1 (omega arith) one_inside one_inside-AllBelow ttas 0 1 (omega arith)
      (omega arith) (omega arith) (loading, refl)

flag_locks_count_example :
    (run (lock_of ttas) 1 both_rounds (start (lock_of ttas))).var ≡ u32 (2 * 1)
flag_locks_count_example =
    flag_locks_count 2 1 (omega arith) both_rounds both_rounds-AllBelow ttas ttas-AllDone

ticket_lock_excludes_example : ¬ IsInside ((run ticket_lock 1 one_inside (start ticket_lock)).pc 1)
unfolding run thread_at ticket_lock_acquire ticket_lock_release
ticket_lock_excludes_example =
    ticket_lock_excludes 2 1 (omega arith) one_inside one_inside-AllBelow (omega arith) 0 1
      (omega arith) (omega arith) (omega arith) (storing 0, refl)

ticket_lock_counts_example : (run ticket_lock 1 both_rounds (start ticket_lock)).var ≡ u32 (2 * 1)
ticket_lock_counts_example =
    ticket_lock_counts 2 1 (omega arith) both_rounds both_rounds-AllBelow (omega arith)
      ticket-AllDone
