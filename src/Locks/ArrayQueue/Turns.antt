-- ===== src/Locks/ArrayQueue/Turns.antt =====
-- The threads of arrayqueue-lock.c come and go in their order.
use networking_howto.Prelude.{ℕ, ◌≤◌, ◌<◌, ◌≡◌, ◌^◌, ltb, Bool-cases, inl, inr, List, [], ◌∷◌, refl}
use networking_howto.Locks.Threads.{loading, storing, releasing}
use networking_howto.Locks.Counter.{AllBelow}
use networking_howto.Locks.ArrayQueue.{
  Pc, outside, spinning, inside, to_pass, System, go, thread_at, run,
}
use networking_howto.Locks.ArrayQueue.Order.{Queue}
use networking_howto.Locks.ArrayQueue.Hold.{test-Queue, move-Queue, release-Queue}
use networking_howto.Locks.ArrayQueue.Enter.{begin-Queue}
use networking_howto.Locks.ArrayQueue.Leave.{pass-Queue}

module _ (k n : ℕ) (narrow : k < 16) (few : n ≤ 2 ^ k) where
  abbrev m : ℕ
  m = 2 ^ k

  var-Queue :
      (s : System) (var : ℕ)
      → Queue k n narrow few s
      → Queue k n narrow few (record s { var = var })
  var-Queue s var q = record {
    served = q.served;
    issued = q.issued;
    number = q.number;
    sized = q.sized;
    next = q.next;
    counted = q.counted;
    placed = q.placed;
    distinct = q.distinct;
    only_served = q.only_served;
    cleared = q.cleared;
  }

  pub thread_at-Queue :
      (num_iterations t : ℕ) (s : System) (p : Pc)
      → t < n
      → s.pc t ≡ p
      → Queue k n narrow few s
      → Queue k n narrow few (thread_at num_iterations t s p)
  unfolding thread_at
  thread_at-Queue num_iterations t s outside l at q =
      elim (Bool-cases (ltb (s.i t) num_iterations)) [
        | inl more ↦ rw more (begin-Queue k n narrow few s t l at q)
        | inr over ↦ rw over q
      ]
  thread_at-Queue num_iterations t s (spinning index iteration) l at q =
      test-Queue k n narrow few s t index iteration l at q
  thread_at-Queue num_iterations t s (inside loading) l at q =
      move-Queue k n narrow few s t loading (storing s.var) l at q
  thread_at-Queue num_iterations t s (inside (storing value)) l at q =
      var-Queue (go s t (inside releasing)) _
        (move-Queue k n narrow few s t (storing value) releasing l at q)
  thread_at-Queue num_iterations t s (inside releasing) l at q =
      release-Queue k n narrow few s t releasing l at q
  thread_at-Queue num_iterations t s (to_pass index) l at q =
      pass-Queue k n narrow few s t index l at q

  pub run-Queue :
      (num_iterations : ℕ) (ts : List ℕ) (s : System)
      → AllBelow n ts
      → Queue k n narrow few s
      → Queue k n narrow few (run num_iterations ts s)
  unfolding run
  run-Queue num_iterations [] s below q = q
  run-Queue num_iterations (t ∷ ts) s below q =
      run-Queue num_iterations ts (thread_at num_iterations t s (s.pc t)) below.1
        (thread_at-Queue num_iterations t s (s.pc t) below.0 refl q)
