-- ===== src/Futex/Safety.antt =====
-- What futex.c is written to show.
use networking_howto.Prelude.{
  ℕ, ◌*◌, ◌<◌, ◌≡◌, ◌≢◌, ◌⊎◌, ◌^◌, inl, inr, true, false, List, arith, sym, ap, ◌∙◌, u32,
}
use networking_howto.Futex.{
  Pc, outside, asleep, inside, is_asleep, Section, Event, System, run, start,
}
use networking_howto.Futex.Ownership.{owns}
use networking_howto.Futex.Sleepers.{attends, Attended, recorded, attendant, unneeded}
use networking_howto.Futex.Kept.{AllOf, Kept}
use networking_howto.Futex.Invariant.{reached-Kept}
use networking_howto.Locks.Rounds.{all-Counted}
use networking_howto.Futex.Places.{places}
use networking_howto.Futex.Counter.{reached-Good}

module _ (num_threads num_iterations : ℕ) (es : List Event) (all : AllOf num_threads es) where
  abbrev reached : System
  reached = run num_iterations es start

  -- Two threads are never in the critical section of futex.c together, for any number of threads and
  -- of rounds, any order of their accesses and calls, any choice of the kernel of whom to wake, and
  -- signals that end a sleep at any time.
  pub futex_excludes :
      (t u : ℕ) (c c' : Section)
      → let s = run num_iterations es start in
        t < num_threads → u < num_threads → t ≢ u → s.pc t ≡ inside c → s.pc u ≢ inside c'
  futex_excludes t u c c' l l' ne at at' =
      let kept = reached-Kept num_threads num_iterations es all in
      ne (kept.owned.alone t u l l' (ap owns at) (ap owns at'))

  -- The message of an invalid mutex has not been printed, at any moment and by any thread, whatever
  -- happens between the three loads of its test. The order of the steps, the choices of the kernel and
  -- the signals are as in `futex_excludes`.
  pub futex_never_invalid : (run num_iterations es start).invalid ≡ false
  futex_never_invalid = (reached-Kept num_threads num_iterations es all).valid

  -- No sleeper is left behind: when every thread is at the test of its loop or asleep, none is asleep.
  -- The order of the steps, the choices of the kernel and the signals are as in `futex_excludes`.
  pub futex_wakes_all :
      let s = run num_iterations es start in
      ((u : ℕ) → u < num_threads → (s.pc u ≡ outside) ⊎ (s.pc u ≡ asleep))
      → (u : ℕ) → u < num_threads
      → s.pc u ≡ outside
  futex_wakes_all rest u l = at_test u l (none_asleep kept.attended)
    where
      kept : Kept num_threads reached
      kept = reached-Kept num_threads num_iterations es all

      idle : {p : Pc} → (p ≡ outside) ⊎ (p ≡ asleep) → (owns p ≡ false) × (attends p ≡ false)
      idle (inl e) = (ap owns e, ap attends e)
      idle (inr e) = (ap owns e, ap attends e)

      none_asleep :
          Attended num_threads reached.mutex reached.pc
          → (v : ℕ) → v < num_threads
          → is_asleep (reached.pc v) ≡ false
      none_asleep (recorded e) =
          let (v, l', mine) = kept.owned.held (λ zero_mutex. omega (arith, e, zero_mutex)) in
          let clash : false ≡ true = sym (idle (rest v l')).0 ∙ mine in cc
      none_asleep (attendant v l' e) = let clash : false ≡ true = sym (idle (rest v l')).1 ∙ e in cc
      none_asleep (unneeded none_is) = none_is

      at_test :
          (v : ℕ)
          → v < num_threads
          → ((v : ℕ) → v < num_threads → is_asleep (reached.pc v) ≡ false)
          → reached.pc v ≡ outside
      at_test v l' awake = elim (rest v l') [
        | inl e ↦ e
        | inr e ↦ let clash : true ≡ false = sym (ap is_asleep e) ∙ awake v l' in cc
      ]

  -- Once all threads have returned, `var` is the number of threads times the number of rounds, reduced
  -- to 32 bits, for fewer than 2^64 rounds; the rest is as in `futex_excludes`.
  pub futex_counts :
      num_iterations < 2 ^ 64
      → let s = run num_iterations es start in
        ((u : ℕ) → u < num_threads → (s.pc u ≡ outside) × (s.i u ≡ num_iterations))
        → s.var ≡ u32 (num_threads * num_iterations)
  futex_counts few returned =
      all-Counted places num_threads num_iterations few
        (reached-Good num_threads num_iterations few es all) returned
