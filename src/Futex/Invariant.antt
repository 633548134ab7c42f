-- ===== src/Futex/Invariant.antt =====
-- The steps of futex.c keep the mutex owned by one thread at most, and its sleepers attended.
use networking_howto.Prelude.{
  if◌then◌else◌, ==_iff, ◌≢◌, ℕ, ◌<◌, ◌≡◌, true, false, not, ◌||◌, List, [], ◌∷◌, ◌==◌, Bool-cases,
  inl, inr, ltb, arith, refl, ◌∙◌, ap,
}
use networking_howto.Futex.{
  checking, checking_free, checking_wq, loading, storing, unlocking, Pc, outside, exchanging,
  to_wait, asleep, inside, to_store, to_wake, System, go, is_asleep, Pick, thread_at, Event, turn,
  signal, step, run, start,
}
use networking_howto.Futex.Ownership.{owns}
use networking_howto.Futex.Sleepers.{unneeded, asleep_if}
use networking_howto.Futex.Kept.{is_late, Picks, Of, AllOf, Kept, move-Kept, wake-Kept}
use networking_howto.Futex.Lock.{lock_first-Kept, lock_exchange-Kept, futex_wait-Kept}
use networking_howto.Futex.Unlock.{unlock_first-Kept, store-Kept, futex_wake-Kept}

module _ (n : ℕ) where
  -- The first comparison of the test fails only if the mutex is M_LOCKD_WQ, since a thread owns it.
  first_check-Kept :
      (s : System) (t : ℕ)
      → t < n
      → s.pc t ≡ inside checking
      → Kept n s
      → Kept n (go s t (inside (if not (s.mutex == 1) then checking_free else loading)))
  first_check-Kept s t l at kept = elim (Bool-cases (s.mutex == 1)) [
    | inl single ↦ rw single (
        move-Kept n s t (inside checking) (inside loading) at refl refl refl (λ e. absurd (cc))
          kept)
    | inr other ↦
        let taken : s.mutex ≢ 0 = λ e. kept.owned.free e t l (ap owns at) in
        let range = kept.range in
        let ne : s.mutex ≢ 1 = λ e. let single = (==_iff s.mutex 1).1 e in cc in
        rw other (
          move-Kept n s t (inside checking) (inside checking_free) at refl refl refl
            (λ e. omega (arith, taken, range, ne)) kept)
  ]

  -- The mutex stays M_LOCKD_WQ between the comparisons, so the second one holds.
  second_check-Kept :
      (s : System) (t : ℕ)
      → t < n
      → s.pc t ≡ inside checking_free
      → Kept n s
      → Kept n (go s t (inside (if not (s.mutex == 0) then checking_wq else loading)))
  second_check-Kept s t l at kept =
      let full : s.mutex ≡ 2 = kept.late t l (ap is_late at) in
      elim (Bool-cases (s.mutex == 0)) [
        | inl free ↦
            let is_zero = (==_iff s.mutex 0).0 free in absurd (omega (arith, full, is_zero))
        | inr taken ↦ rw taken (
            move-Kept n s t (inside checking_free) (inside checking_wq) at refl refl refl
              (λ e. full) kept)
      ]

  -- The third comparison fails, so nothing is printed.
  third_check-Kept :
      (s : System) (t : ℕ)
      → t < n
      → s.pc t ≡ inside checking_wq
      → Kept n s
      → Kept n (go (record s { invalid = s.invalid || not (s.mutex == 2) }) t (inside loading))
  third_check-Kept s t l at kept =
      let moved =
        move-Kept n s t (inside checking_wq) (inside loading) at refl refl refl (λ e. absurd (cc))
          kept in
      let full = (==_iff s.mutex 2).1 (kept.late t l (ap is_late at)) in
      record {
        range = moved.range;
        owned = moved.owned;
        attended = moved.attended;
        late = moved.late;
        valid = ap (λ b. b || not (s.mutex == 2)) kept.valid ∙ ap not full;
      }

  store_var-Kept :
      (s : System) (t value var : ℕ)
      → s.pc t ≡ inside (storing value)
      → Kept n s
      → Kept n (go (record s { var = var }) t (inside unlocking))
  store_var-Kept s t value var at kept =
      let moved =
        move-Kept n s t (inside (storing value)) (inside unlocking) at refl refl refl
          (λ e. absurd (cc)) kept in
      record {
        range = moved.range;
        owned = moved.owned;
        attended = moved.attended;
        late = moved.late;
        valid = moved.valid;
      }

  thread_at-Kept :
      (num_iterations : ℕ) (pick : Pick) (t : ℕ) (s : System) (p : Pc)
      → Picks n pick
      → t < n
      → s.pc t ≡ p
      → Kept n s
      → Kept n (thread_at num_iterations pick t s p)
  unfolding thread_at
  thread_at-Kept num_iterations pick t s outside picks l at kept =
      elim (Bool-cases (ltb (s.i t) num_iterations)) [
        | inl more ↦ rw more (lock_first-Kept n s t l at kept)
        | inr over ↦ rw over kept
      ]
  thread_at-Kept num_iterations pick t s exchanging picks l at kept =
      lock_exchange-Kept n s t l at kept
  thread_at-Kept num_iterations pick t s to_wait picks l at kept = futex_wait-Kept n s t l at kept
  thread_at-Kept num_iterations pick t s asleep picks l at kept = kept
  thread_at-Kept num_iterations pick t s (inside checking) picks l at kept =
      first_check-Kept s t l at kept
  thread_at-Kept num_iterations pick t s (inside checking_free) picks l at kept =
      second_check-Kept s t l at kept
  thread_at-Kept num_iterations pick t s (inside checking_wq) picks l at kept =
      third_check-Kept s t l at kept
  thread_at-Kept num_iterations pick t s (inside loading) picks l at kept =
      move-Kept n s t (inside loading) (inside (storing s.var)) at refl refl refl (λ e. absurd (cc))
        kept
  thread_at-Kept num_iterations pick t s (inside (storing value)) picks l at kept =
      store_var-Kept s t value _ at kept
  thread_at-Kept num_iterations pick t s (inside unlocking) picks l at kept =
      unlock_first-Kept n s t l at kept
  thread_at-Kept num_iterations pick t s to_store picks l at kept = store-Kept n s t l at kept
  thread_at-Kept num_iterations pick t s to_wake picks l at kept =
      futex_wake-Kept n pick s t picks l at kept

  pub step-Kept :
      (num_iterations : ℕ) (e : Event) (s : System)
      → Of n e
      → Kept n s
      → Kept n (step num_iterations e s)
  unfolding step
  step-Kept num_iterations (turn t pick) s mine kept =
      thread_at-Kept num_iterations pick t s (s.pc t) mine.1 mine.0 refl kept
  step-Kept num_iterations (signal t) s mine kept = elim (Bool-cases (is_asleep (s.pc t))) [
    | inl sleeping ↦ rw sleeping (wake-Kept n s t mine (asleep_if (s.pc t) sleeping) kept)
    | inr awake ↦ rw awake kept
  ]

  pub start-Kept : Kept n start
  start-Kept = record {
    range = omega arith;
    owned = record {
      free = λ e u l mine. let clash : false ≡ true = mine in cc;
      held = λ ne. absurd (ne refl);
      alone = λ t u l l' mine. let clash : false ≡ true = mine in cc;
    };
    attended = unneeded (λ u l. refl);
    late = λ u l e. absurd (cc);
    valid = refl;
  }

  run-Kept :
      (num_iterations : ℕ) (es : List Event) (s : System)
      → AllOf n es
      → Kept n s
      → Kept n (run num_iterations es s)
  unfolding run
  run-Kept num_iterations [] s all kept = kept
  run-Kept num_iterations (e ∷ es) s all kept =
      run-Kept num_iterations es (step num_iterations e s) all.1
        (step-Kept num_iterations e s all.0 kept)

  pub reached-Kept :
      (num_iterations : ℕ) (es : List Event) → AllOf n es → Kept n (run num_iterations es start)
  reached-Kept num_iterations es all = run-Kept num_iterations es start all start-Kept
